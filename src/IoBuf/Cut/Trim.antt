-- ===== src/IoBuf/Cut/Trim.antt =====
-- Shortening the first or the last reference of a valid buffer in place.
use light_rpc.Prelude.{
  ℕ, suc, ◌+◌, ◌-◌, ◌^◌, ◌<◌, ◌≡◌, refl, sym, ap, ap₂, ◌∙◌, inl, inr, List, [], ◌∷◌, ◌++◌,
  length-set, get_or, set, get_or-set_self, collect, collect_ext, snoc_injective, arith,
}
use light_rpc.Prelude.Bits.{add32, sub32, sub64}
use light_rpc.IoBuf.View.{
  BlockRef, null_ref, BigView, IoBuf, small, big, ref_index, ring_ref_at, total, IsRing, IsRef,
  HasShape, ref_list, front_ref, back_ref,
}
use light_rpc.IoBuf.Ring.{ref_index-lt, write_elsewhere, collect_write, total-append}
use light_rpc.IoBuf.Push.{Holds, not_null}
use light_rpc.IoBuf.Pop.{ref_index_start, refs_front, refs_back, empty_ne_snoc}
use light_rpc.IoBuf.Cut.{trim_front, trim_back}

-- A reference without its first, or its last, `n` bytes.
abbrev pub skip : ℕ → BlockRef → BlockRef
skip n r = record r { offset = r.offset + n; length = r.length - n }

abbrev pub shorten : ℕ → BlockRef → BlockRef
shorten n r = record r { length = r.length - n }

module _ {v : BigView} (w : IsRing v) where
  first_written :
      (k : ℕ) (t : BlockRef)
      → ref_index v 0 ≡ k
      → collect (λ i. get_or (set v.refs k t) (ref_index v i) null_ref) v.nref
        ≡ t ∷ collect (λ i. ring_ref_at v (suc i)) (v.nref - 1)
  first_written k t e =
      ap (collect (λ i. get_or (set v.refs k t) (ref_index v i) null_ref)) {y = suc (v.nref - 1)}
        (omega (arith, w.many))
      ∙ ap₂ ◌∷◌ first (collect_ext _ _ (v.nref - 1) others)
    where
      first : get_or (set v.refs k t) (ref_index v 0) null_ref ≡ t
      first =
          rw (← e)
            (get_or-set_self v.refs (ref_index v 0) t null_ref (ref_index-lt w 0 (omega arith)))

      others :
          (i : ℕ)
          → i < v.nref - 1
          → get_or (set v.refs k t) (ref_index v (suc i)) null_ref ≡ ring_ref_at v (suc i)
      others i l =
          rw (← e)
            (write_elsewhere w (suc i) 0 t (omega (arith, w.fits)) (omega arith) (omega arith))

  last_written :
      (t : BlockRef)
      → collect
          (λ i. get_or (set v.refs (ref_index v (v.nref - 1)) t) (ref_index v i) null_ref)
          v.nref
        ≡ collect (ring_ref_at v) (v.nref - 1) ++ (t ∷ [])
  last_written t =
      ap (collect (λ i. get_or (set v.refs (ref_index v (v.nref - 1)) t) (ref_index v i) null_ref))
        {y = suc (v.nref - 1)} (omega (arith, w.many))
      ∙ collect_write w (v.nref - 1) t (omega (arith, w.fits, w.many))

  -- One reference written in place of another that is `n` bytes longer.
  ring_written :
      (k n : ℕ) (t : BlockRef) (ys : List BlockRef)
      → collect (λ i. get_or (set v.refs k t) (ref_index v i) null_ref) v.nref ≡ ys
      → total ys + n ≡ total (collect (ring_ref_at v) v.nref)
      → total (collect (ring_ref_at v) v.nref) < 2 ^ 32
      → Holds (big (record v { refs = set v.refs k t; nbytes = sub64 v.nbytes n })) ys
  unfolding ref_list
  ring_written k n t ys list less small_total = (
    record {
      bits = w.bits;
      power = w.power;
      in_word = w.in_word;
      room = length-set v.refs k t ∙ w.room;
      start_in = w.start_in;
      many = w.many;
      fits = w.fits;
      counted = omega (arith, w.counted, ap total list);
    },
    list,
  )

skip_word :
    (n : ℕ) (x : BlockRef)
    → IsRef x
    → n < x.length
    → Path BlockRef (record x { offset = add32 x.offset n; length = sub32 x.length n }) (skip n x)
skip_word n x h l = ground arith

shorten_word :
    (n : ℕ) (x : BlockRef)
    → IsRef x
    → n < x.length
    → Path BlockRef (record x { length = sub32 x.length n }) (shorten n x)
shorten_word n x h l = ground arith

pub total-skip :
    {ys : List BlockRef} (n : ℕ) (x : BlockRef) (xs : List BlockRef)
    → ys ≡ x ∷ xs
    → n < x.length
    → total (skip n x ∷ xs) + n ≡ total ys
unfolding total
total-skip n x xs e l = omega (arith, ap total e)

pub total-shorten :
    {ys : List BlockRef} (n : ℕ) (xs : List BlockRef) (x : BlockRef)
    → ys ≡ xs ++ (x ∷ [])
    → n < x.length
    → total (xs ++ (shorten n x ∷ [])) + n ≡ total ys
unfolding total
total-shorten n xs x e l =
    omega (arith, ap total e, total-append xs (x ∷ []), total-append xs (shorten n x ∷ []))

pub trim_front-Holds :
    (n : ℕ) (b : IoBuf) (x : BlockRef) (xs : List BlockRef)
    → HasShape b
    → IsRef x
    → total (ref_list b) < 2 ^ 32
    → ref_list b ≡ x ∷ xs
    → n < x.length
    → Holds (trim_front n b) (skip n x ∷ xs)
unfolding trim_front front_ref ref_list
trim_front-Holds n (small r0 r1) x xs (inl (e0, e1)) h t e l = ground arith
trim_front-Holds n (small r0 r1) x xs (inr (inl (n0, e1))) h t e l =
    let f = rw (e1, not_null r0.block n0) at e in
    let same : r0 ≡ x = cc in
    (inr (inl (n0, e1)), rw (e1, not_null r0.block n0) (ap₂ ◌∷◌ (rw same (skip_word n x h l)) (cc)))
trim_front-Holds n (small r0 r1) x xs (inr (inr (n0, n1))) h t e l =
    let f = rw (not_null r0.block n0, not_null r1.block n1) at e in
    let same : r0 ≡ x = cc in
    (
      inr (inr (n0, n1)),
      rw (not_null r0.block n0, not_null r1.block n1) (ap₂ ◌∷◌ (rw same (skip_word n x h l)) (cc)),
    )
trim_front-Holds n (big v) x xs w h t e l =
    let parts = sym (refs_front w) ∙ e in
    let same : get_or v.refs v.start null_ref ≡ x = cc in
    let rest : collect (λ i. ring_ref_at v (suc i)) (v.nref - 1) ≡ xs = cc in
    rw (same, skip_word n x h l)
      (ring_written w v.start n (skip n x) (skip n x ∷ xs)
        (first_written w v.start (skip n x) (ref_index_start w) ∙ ap (◌∷◌ (skip n x)) rest)
        (total-skip n x xs e l) t)

pub trim_back-Holds :
    (n : ℕ) (b : IoBuf) (xs : List BlockRef) (x : BlockRef)
    → HasShape b
    → IsRef x
    → total (ref_list b) < 2 ^ 32
    → ref_list b ≡ xs ++ (x ∷ [])
    → n < x.length
    → Holds (trim_back n b) (xs ++ (shorten n x ∷ []))
unfolding trim_back back_ref ref_list
trim_back-Holds n (small r0 r1) xs x (inl (e0, e1)) h t e l =
    absurd (empty_ne_snoc xs x (rw e0 at e))
trim_back-Holds n (small r0 r1) xs x (inr (inl (n0, e1))) h t e l =
    let (init, same) = snoc_injective [] xs r0 x (rw (e1, not_null r0.block n0) at e) in
    rw e1 (
      inr (inl (n0, refl)),
      rw (not_null r0.block n0, same, shorten_word n x h l)
          (ap (λ p. p ++ (shorten n x ∷ [])) init),
    )
trim_back-Holds n (small r0 r1) xs x (inr (inr (n0, n1))) h t e l =
    let (init, same) =
      snoc_injective (r0 ∷ []) xs r1 x (rw (not_null r0.block n0, not_null r1.block n1) at e) in
    rw (not_null r1.block n1) (
      inr (inr (n0, n1)),
      rw (not_null r0.block n0, not_null r1.block n1, same, shorten_word n x h l)
          (ap (λ p. p ++ (shorten n x ∷ [])) init),
    )
trim_back-Holds n (big v) xs x w h t e l =
    let (init, same) = snoc_injective _ _ _ _ (sym (refs_back w) ∙ e) in
    rw (same, shorten_word n x h l)
      (ring_written w (ref_index v (v.nref - 1)) n (shorten n x) (xs ++ (shorten n x ∷ []))
        (last_written w (shorten n x) ∙ ap (λ p. p ++ (shorten n x ∷ [])) init)
        (total-shorten n xs x e l) t)
