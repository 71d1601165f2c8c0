-- ===== src/IoBuf/Pop.antt =====
-- Taking the first or the last reference out of a valid buffer.
use native.Mathlib.Nat.{mod-add-mod, mod-lt, mod-eq_of_lt}
use light_rpc.Prelude.{
  All, ℕ, suc, ◌+◌, ◌-◌, ◌%◌, ◌^◌, ◌≤◌, ◌<◌, ◌≡◌, refl, sym, ap, ◌∙◌, ◌≢◌, inl, inr, List, [], ◌∷◌,
  ◌++◌, Bool, true, false, Bool-cases, ltb, bit_and, length, get_or, collect, collect_ext,
  collect_snoc, subst, snoc_injective, length-append, arith,
}
use light_rpc.Prelude.Bits.{bit_and_mask, add32}
use light_rpc.IoBuf.Store.{Store}
use light_rpc.IoBuf.View.{
  BlockRef, null_ref, BigView, IoBuf, small, big, ref_index, ring_ref_at, total, IsRing, IsRef,
  IsValid, HasShape, ref_list, front_ref, back_ref,
}
use light_rpc.IoBuf.Refs.{advance, retreat, pop_front_ref, pop_back_ref}
use light_rpc.IoBuf.Ring.{ref_index_mod, total-append}
use light_rpc.IoBuf.Push.{Holds, not_null}

module _ {v : BigView} (w : IsRing v) where
  pub ref_index_start : ref_index v 0 ≡ v.start
  ref_index_start = omega (
    arith,
    ref_index_mod w 0 (omega arith),
    mod-eq_of_lt {n = v.start + 0} {m = v.cap_mask + 1} (omega (arith, w.start_in)),
  )

  next_start : bit_and (add32 v.start 1) v.cap_mask ≡ (v.start + 1) % (v.cap_mask + 1)
  next_start = ref_index_mod w 1 (omega arith)

  -- One place on, the ring is read from the next reference.
  next_index :
      (i : ℕ)
      → suc i ≤ v.cap_mask + 1
      → bit_and (add32 (bit_and (add32 v.start 1) v.cap_mask) i) v.cap_mask ≡ ref_index v (suc i)
  next_index i h =
      rw (next_start, ref_index_mod w (suc i) h)
        (bit_and_mask w.bits v.cap_mask _ w.power
          ∙ ap (λ (t : ℕ). t % (v.cap_mask + 1)) {y = (v.start + 1) % (v.cap_mask + 1) + i} no_wrap
          ∙ mod-add-mod (v.start + 1) (v.cap_mask + 1) i
          ∙ ap (λ (t : ℕ). t % (v.cap_mask + 1)) (omega arith))
    where
      no_wrap : add32 ((v.start + 1) % (v.cap_mask + 1)) i ≡ (v.start + 1) % (v.cap_mask + 1) + i
      no_wrap = omega (arith, mod-lt (v.start + 1) {m = v.cap_mask + 1} (omega arith), w.in_word)

  three : ltb 2 (v.nref - 1) ≡ false → v.nref ≡ 3
  three h = ground (arith, w.many)

  pub refs_front :
      collect (ring_ref_at v) v.nref
      ≡ get_or v.refs v.start null_ref ∷ collect (λ i. ring_ref_at v (suc i)) (v.nref - 1)
  refs_front =
      ap (collect (ring_ref_at v)) {y = suc (v.nref - 1)} (omega (arith, w.many))
      ∙ ap (λ k. get_or v.refs k null_ref ∷ collect (λ i. ring_ref_at v (suc i)) (v.nref - 1))
          ref_index_start

  pub refs_back :
      collect (ring_ref_at v) v.nref
      ≡ collect (ring_ref_at v) (v.nref - 1) ++ (ring_ref_at v (v.nref - 1) ∷ [])
  refs_back =
      ap (collect (ring_ref_at v)) {y = suc (v.nref - 1)} (omega (arith, w.many))
      ∙ collect_snoc (ring_ref_at v) (v.nref - 1)

small_Holds : (r0 r1 : BlockRef) → IsRef r0 → IsRef r1 → Holds (small r0 r1) (r0 ∷ r1 ∷ [])
unfolding ref_list
small_Holds r0 r1 h0 h1 = (
  inr (inr (h0.to_block, h1.to_block)),
  rw (not_null r0.block h0.to_block, not_null r1.block h1.to_block),
)

module _ {v : BigView} (w : IsRing v) (a : All IsRef (collect (ring_ref_at v) v.nref))
    (bounded : total (collect (ring_ref_at v) v.nref) < 2 ^ 32) where
  first_three : v.nref ≡ 3 → All IsRef (collect (ring_ref_at v) 3)
  first_three e = subst (λ n. All IsRef (collect (ring_ref_at v) n)) e a

  advance-Holds : Holds (advance v) (collect (λ i. ring_ref_at v (suc i)) (v.nref - 1))
  unfolding advance ref_list total
  advance-Holds = elim (Bool-cases (ltb 2 (v.nref - 1))) [
    | inl more ↦ rw more (
      record {
        bits = w.bits;
        power = w.power;
        in_word = w.in_word;
        room = w.room;
        start_in =
            omega (arith, next_start w, mod-lt (v.start + 1) {m = v.cap_mask + 1} (omega arith));
        many = ground arith;
        fits = omega (arith, w.fits);
        counted = omega (arith, ap total refs, ap total (refs_front w), w.counted);
      },
      refs,
    )
    | inr last ↦ rw last (two (three w last))
  ]
    where
      refs :
          collect
            (λ i.
              get_or v.refs
                (bit_and (add32 (bit_and (add32 v.start 1) v.cap_mask) i) v.cap_mask)
                null_ref)
            (v.nref - 1)
          ≡ collect (λ i. ring_ref_at v (suc i)) (v.nref - 1)
      refs =
          collect_ext _ _ (v.nref - 1)
            (λ i l. ap (λ k. get_or v.refs k null_ref) (next_index w i (omega (arith, w.fits))))

      two :
          v.nref ≡ 3
          → Holds
              (small (ring_ref_at v 1) (ring_ref_at v 2))
              (collect (λ i. ring_ref_at v (suc i)) (v.nref - 1))
      two e =
          subst
            (λ n.
              Holds (small (ring_ref_at v 1) (ring_ref_at v 2))
                (collect (λ i. ring_ref_at v (suc i)) n))
            {x = 2} (omega arith) (small_Holds _ _ (first_three e).1.0 (first_three e).1.1.0)

  retreat-Holds : Holds (retreat v) (collect (ring_ref_at v) (v.nref - 1))
  unfolding retreat ref_list total
  retreat-Holds = elim (Bool-cases (ltb 2 (v.nref - 1))) [
    | inl more ↦ rw more (
      record {
        bits = w.bits;
        power = w.power;
        in_word = w.in_word;
        room = w.room;
        start_in = w.start_in;
        many = ground arith;
        fits = omega (arith, w.fits);
        counted = omega (
          arith,
          ap total (refs_back w),
          total-append (collect (ring_ref_at v) (v.nref - 1)) (ring_ref_at v (v.nref - 1) ∷ []),
          w.counted,
        );
      },
      refl,
    )
    | inr last ↦ rw last (two (three w last))
  ]
    where
      at_start :
          Holds (small (ring_ref_at v 0) (ring_ref_at v 1)) (collect (ring_ref_at v) 2)
          → Holds
              (small (get_or v.refs v.start null_ref) (ring_ref_at v 1))
              (collect (ring_ref_at v) 2)
      at_start =
          subst
            (λ k.
              Holds (small (get_or v.refs k null_ref) (ring_ref_at v 1))
                (collect (ring_ref_at v) 2))
            (ref_index_start w)

      two :
          v.nref ≡ 3
          → Holds
              (small (get_or v.refs v.start null_ref) (ring_ref_at v 1))
              (collect (ring_ref_at v) (v.nref - 1))
      two e =
          subst
            (λ n.
              Holds (small (get_or v.refs v.start null_ref) (ring_ref_at v 1))
                (collect (ring_ref_at v) n))
            {x = 2} (omega arith) (at_start (small_Holds _ _ (first_three e).0 (first_three e).1.0))

pub Holds-IsValid :
    {b : IoBuf} {xs : List BlockRef} → Holds b xs → All IsRef xs → total xs < 2 ^ 32 → IsValid b
Holds-IsValid h a t = record {
  shape = h.0;
  each = subst (All IsRef) (sym h.1) a;
  bounded = omega (arith, ap total h.1);
}

pub All-append_left : (xs ys : List BlockRef) → All IsRef (xs ++ ys) → All IsRef xs
All-append_left [] ys a = tt
All-append_left (x ∷ xs) ys a = (a.0, All-append_left xs ys a.1)

pub tail-each : {ys xs : List BlockRef} {x : BlockRef} → ys ≡ x ∷ xs → All IsRef ys → All IsRef xs
tail-each e a = (subst (All IsRef) e a).1

pub tail_total : {ys xs : List BlockRef} {x : BlockRef} → ys ≡ x ∷ xs → total xs ≤ total ys
unfolding total
tail_total e = omega (arith, ap total e)

front_shape :
    (move_out : Bool) (b : IoBuf) (s : Store) (x : BlockRef) (xs : List BlockRef)
    → HasShape b
    → All IsRef (ref_list b)
    → total (ref_list b) < 2 ^ 32
    → ref_list b ≡ x ∷ xs
    → ((pop_front_ref move_out b s).0 ≡ true)
      × Holds (pop_front_ref move_out b s).1 xs
      × (front_ref b ≡ x)
unfolding pop_front_ref front_ref ref_list
front_shape move_out (small r0 r1) s x xs (inl (e0, e1)) a t e = ground arith
front_shape move_out (small r0 r1) s x xs (inr (inl (n0, e1))) a t e =
    let f = rw (e1, not_null r0.block n0) at e in
    rw (e1, not_null r0.block n0) (refl, (inl (refl, refl), cc), cc)
front_shape move_out (small r0 r1) s x xs (inr (inr (n0, n1))) a t e =
    let f = rw (not_null r0.block n0, not_null r1.block n1) at e in
    rw (not_null r0.block n0) (refl, (inr (inl (n1, refl)), rw (not_null r1.block n1) (cc)), cc)
front_shape move_out (big v) s x xs w a t e =
    let parts = sym (refs_front w) ∙ e in
    (refl, subst (Holds (advance v)) (cc) (advance-Holds w a t), cc)

pub empty_ne_snoc : (xs : List BlockRef) (x : BlockRef) → [] ≢ xs ++ (x ∷ [])
empty_ne_snoc xs x e = omega (arith, ap length e, length-append xs (x ∷ []))

back_shape :
    (b : IoBuf) (s : Store) (xs : List BlockRef) (x : BlockRef)
    → HasShape b
    → All IsRef (ref_list b)
    → total (ref_list b) < 2 ^ 32
    → ref_list b ≡ xs ++ (x ∷ [])
    → ((pop_back_ref b s).0 ≡ true) × Holds (pop_back_ref b s).1 xs × (back_ref b ≡ x)
unfolding pop_back_ref back_ref ref_list
back_shape (small r0 r1) s xs x (inl (e0, e1)) a t e = absurd (empty_ne_snoc xs x (rw e0 at e))
back_shape (small r0 r1) s xs x (inr (inl (n0, e1))) a t e =
    let f = rw (e1, not_null r0.block n0) at e in
    let (init, last) = snoc_injective [] xs r0 x f in
    rw (e1, not_null r0.block n0) (refl, (inl (refl, refl), init), last)
back_shape (small r0 r1) s xs x (inr (inr (n0, n1))) a t e =
    let f = rw (not_null r0.block n0, not_null r1.block n1) at e in
    let (init, last) = snoc_injective (r0 ∷ []) xs r1 x f in
    rw (not_null r1.block n1) (refl, (inr (inl (n0, refl)), rw (not_null r0.block n0) init), last)
back_shape (big v) s xs x w a t e =
    let (init, last) = snoc_injective _ _ _ _ (sym (refs_back w) ∙ e) in
    (refl, subst (Holds (retreat v)) init (retreat-Holds w a t), last)

-- Taking the first reference out, with or without giving up its share, leaves a valid buffer with
-- the others, in order; it was the one that `_front_ref` gives, and the call reports success.
pub pop_front_ref_drops :
    (move_out : Bool) (b : IoBuf) (s : Store) (x : BlockRef) (xs : List BlockRef)
    → IsValid b
    → ref_list b ≡ x ∷ xs
    → ((pop_front_ref move_out b s).0 ≡ true)
      × IsValid (pop_front_ref move_out b s).1
      × (ref_list (pop_front_ref move_out b s).1 ≡ xs)
      × (front_ref b ≡ x)
pop_front_ref_drops move_out b s x xs v e =
    let (done, held, same) = front_shape move_out b s x xs v.shape v.each v.bounded e in
    (
      done,
      Holds-IsValid held (tail-each e v.each) (omega (arith, tail_total e, v.bounded)),
      held.1,
      same,
    )

-- Taking the last reference out gives up its share and leaves a valid buffer with the others, in
-- order; it was the one that `_back_ref` gives, and the call reports success.
pub pop_back_ref_drops :
    (b : IoBuf) (s : Store) (xs : List BlockRef) (x : BlockRef)
    → IsValid b
    → ref_list b ≡ xs ++ (x ∷ [])
    → ((pop_back_ref b s).0 ≡ true)
      × IsValid (pop_back_ref b s).1
      × (ref_list (pop_back_ref b s).1 ≡ xs)
      × (back_ref b ≡ x)
pop_back_ref_drops b s xs x v e =
    let (done, held, same) = back_shape b s xs x v.shape v.each v.bounded e in
    (
      done,
      Holds-IsValid held (All-append_left xs (x ∷ []) (subst (All IsRef) e v.each))
          (omega (arith, ap total e, total-append xs (x ∷ []), v.bounded)),
      held.1,
      same,
    )
