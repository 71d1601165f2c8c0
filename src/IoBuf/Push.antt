-- ===== src/IoBuf/Push.antt =====
-- Pushing a reference appends it to the reference list of a valid buffer, merging it with the last
-- one where that one's bytes go on.
use native.Mathlib.Nat.{mod-eq_of_lt, pow-suc}
use light_rpc.Prelude.{
  ℕ, suc, ◌+◌, ◌-◌, ◌*◌, ◌%◌, ◌^◌, ◌≤◌, ◌<◌, ◌≡◌, refl, sym, ap, ◌∙◌, ◌≢◌, inl, inr, List, [], ◌∷◌,
  ◌++◌, Bool, true, false, Bool-cases, ◌==◌, length, get_or, set, replicate, length-replicate,
  length-append, length-set, get_or-set_self, get_or-set_ne, collect, length-collect,
  get_or-collect, collect_ext, collect_snoc, arith,
}
use light_rpc.Prelude.Bits.{bit_and_mask, add32, add64}
use light_rpc.IoBuf.Store.{Store}
use light_rpc.IoBuf.View.{
  BlockRef, null_ref, BigView, IoBuf, small, big, ref_index, ring_ref_at, capacity, total, IsRing,
  IsRef, IsValid, HasShape, ref_list, ref_num,
}
use light_rpc.IoBuf.Refs.{
  merges, merge, convert_to_big, push_to_small, extend_back, store_back, grow_back, push_to_big,
  push_back_ref,
}
use light_rpc.IoBuf.Ring.{
  collect_write, append_ref, append_ref_split, total-append_ref, append_ref-IsRef,
}

-- An array filled from its front, with one more reference written behind.
copied_list :
    (f : ℕ → BlockRef) (n : ℕ) (pad : List BlockRef) (r : BlockRef) (place : ℕ → ℕ)
    → ((i : ℕ) → i ≤ n → place i ≡ i)
    → 0 < length pad
    → collect (λ i. get_or (set (collect f n ++ pad) n r) (place i) null_ref) (suc n)
      ≡ collect f n ++ (r ∷ [])
copied_list f n pad r place h p = rw (
  collect_snoc (λ i. get_or (set (collect f n ++ pad) n r) (place i) null_ref) n,
  h n (omega arith),
  get_or-set_self (collect f n ++ pad) n r null_ref
      (omega (arith, length-append (collect f n) pad, length-collect f n)),
  collect_ext (λ i. get_or (set (collect f n ++ pad) n r) (place i) null_ref) f n copied,
)
  where
    copied : (i : ℕ) → i < n → get_or (set (collect f n ++ pad) n r) (place i) null_ref ≡ f i
    copied i l = rw (
      h i (omega arith),
      get_or-set_ne (collect f n ++ pad) n i r null_ref (omega arith),
      get_or-collect f n i pad null_ref l,
    )

module _ {v : BigView} (w : IsRing v) (r : BlockRef) where
  extend_back_list :
      (m : ℕ)
      → v.nref - 1 ≡ m
      → collect (ring_ref_at (extend_back v r)) (suc m)
        ≡ collect (ring_ref_at v) m ++ (merge (ring_ref_at v m) r ∷ [])
  unfolding extend_back
  extend_back_list m f =
      rw f (collect_write w m (merge (ring_ref_at v m) r) (omega (arith, w.fits, w.many)))

  store_back_list :
      v.nref < v.cap_mask + 1
      → collect (ring_ref_at (store_back v r)) (suc v.nref)
        ≡ collect (ring_ref_at v) v.nref ++ (r ∷ [])
  unfolding store_back
  store_back_list h = collect_write w v.nref r h

  grown_mask : v.cap_mask + 1 ≤ 2 ^ 30 → (grow_back v r).cap_mask + 1 ≡ (v.cap_mask + 1) * 2
  unfolding grow_back
  grown_mask h = omega arith

  grown_place :
      v.cap_mask + 1 ≤ 2 ^ 30 → (i : ℕ) → i ≤ v.cap_mask + 1 → ref_index (grow_back v r) i ≡ i
  unfolding grow_back
  grown_place h i l = ground (
    arith,
    bit_and_mask (suc w.bits) (grow_back v r).cap_mask i
        (omega (arith, grown_mask h, w.power, pow-suc 2 w.bits)),
    grown_mask h,
    mod-eq_of_lt {n = i} {m = (v.cap_mask + 1) * 2},
  )

  grow_back_list :
      v.nref ≡ v.cap_mask + 1
      → v.cap_mask + 1 ≤ 2 ^ 30
      → collect (ring_ref_at (grow_back v r)) (suc v.nref)
        ≡ collect (ring_ref_at v) v.nref ++ (r ∷ [])
  unfolding grow_back
  grow_back_list h c =
      copied_list (ring_ref_at v) v.nref (replicate (capacity v * 2 % 2 ^ 32 - v.nref) null_ref) r
        (ref_index (grow_back v r)) (λ i l. grown_place c i (omega arith))
        (omega (arith, length-replicate (capacity v * 2 % 2 ^ 32 - v.nref) null_ref))

  nref_suc : v.nref ≡ suc (v.nref - 1)
  nref_suc = omega (arith, w.many)

  pub last_split :
      collect (ring_ref_at v) v.nref
      ≡ collect (ring_ref_at v) (v.nref - 1) ++ (ring_ref_at v (v.nref - 1) ∷ [])
  last_split = ap (collect (ring_ref_at v)) nref_suc ∙ collect_snoc (ring_ref_at v) (v.nref - 1)

  extend_back_append :
      merges (ring_ref_at v (v.nref - 1)) r ≡ true
      → collect (ring_ref_at (extend_back v r)) v.nref
        ≡ append_ref (collect (ring_ref_at v) v.nref) r
  extend_back_append e =
      ap (collect (ring_ref_at (extend_back v r))) nref_suc
      ∙ extend_back_list (v.nref - 1) refl
      ∙ sym (append_ref_split _ _ _ r last_split ∙ (rw e))

  append_other :
      merges (ring_ref_at v (v.nref - 1)) r ≡ false
      → append_ref (collect (ring_ref_at v) v.nref) r ≡ collect (ring_ref_at v) v.nref ++ (r ∷ [])
  append_other e = append_ref_split _ _ _ r last_split ∙ (rw e)

-- What a push leaves: a buffer of the right shape that holds the references `xs`.
abbrev pub Holds : IoBuf → List BlockRef → Type 0
Holds b xs = HasShape b × (ref_list b ≡ xs)

module _ {v : BigView} (w : IsRing v) (r : BlockRef)
    (fits : total (collect (ring_ref_at v) v.nref) + r.length < 2 ^ 32)
    (few : v.nref < 2 ^ 30) where
  after : List BlockRef
  after = append_ref (collect (ring_ref_at v) v.nref) r

  nbytes_after : {xs : List BlockRef} → xs ≡ after → add64 v.nbytes r.length ≡ total xs
  unfolding after
  nbytes_after e =
      omega (arith, ap total e, w.counted, total-append_ref (collect (ring_ref_at v) v.nref) r fits)

  extend_back-Holds :
      merges (ring_ref_at v (v.nref - 1)) r ≡ true → Holds (big (extend_back v r)) after
  unfolding extend_back ref_list after
  extend_back-Holds e = (
    record {
      bits = w.bits;
      power = w.power;
      in_word = w.in_word;
      room = length-set v.refs _ _ ∙ w.room;
      start_in = w.start_in;
      many = w.many;
      fits = w.fits;
      counted = nbytes_after (extend_back_append w r e);
    },
    extend_back_append w r e,
  )

  store_back-Holds :
      merges (ring_ref_at v (v.nref - 1)) r ≡ false
      → v.nref ≢ v.cap_mask + 1
      → Holds (big (store_back v r)) after
  unfolding store_back ref_list after
  store_back-Holds e free = (
    record {
      bits = w.bits;
      power = w.power;
      in_word = w.in_word;
      room = length-set v.refs _ _ ∙ w.room;
      start_in = w.start_in;
      many = omega (arith, w.many);
      fits = omega (arith, w.fits);
      counted = nbytes_after list;
    },
    list,
  )
    where
      list :
          collect (ring_ref_at (store_back v r)) (add32 v.nref 1)
          ≡ append_ref (collect (ring_ref_at v) v.nref) r
      list =
          ap (collect (ring_ref_at (store_back v r))) {y = suc v.nref} (omega arith)
          ∙ store_back_list w r (omega (arith, w.fits))
          ∙ sym (append_other w r e)

  grow_back-Holds :
      merges (ring_ref_at v (v.nref - 1)) r ≡ false
      → v.nref ≡ v.cap_mask + 1
      → Holds (big (grow_back v r)) after
  unfolding grow_back ref_list after
  grow_back-Holds e taken = (
    record {
      bits = suc w.bits;
      power = omega (arith, grown_mask w r (omega arith), w.power, pow-suc 2 w.bits);
      in_word = omega (arith, grown_mask w r (omega arith));
      room = omega (
        arith,
        grown_mask w r (omega arith),
        length-set
            (collect (ring_ref_at v) v.nref
              ++ replicate (capacity v * 2 % 2 ^ 32 - v.nref) null_ref)
            v.nref r,
        length-append (collect (ring_ref_at v) v.nref)
            (replicate (capacity v * 2 % 2 ^ 32 - v.nref) null_ref),
        length-collect (ring_ref_at v) v.nref,
        length-replicate (capacity v * 2 % 2 ^ 32 - v.nref) null_ref,
      );
      start_in = omega (arith, grown_mask w r (omega arith));
      many = omega (arith, w.many);
      fits = omega (arith, grown_mask w r (omega arith));
      counted = nbytes_after list;
    },
    list,
  )
    where
      list :
          collect (ring_ref_at (grow_back v r)) (add32 v.nref 1)
          ≡ append_ref (collect (ring_ref_at v) v.nref) r
      list =
          ap (collect (ring_ref_at (grow_back v r))) {y = suc v.nref} (omega arith)
          ∙ grow_back_list w r taken (omega arith)
          ∙ sym (append_other w r e)

  push_to_big-Holds : (move : Bool) (s : Store) → Holds (push_to_big move v r s).0 after
  unfolding push_to_big
  push_to_big-Holds move s = elim (Bool-cases (merges (ring_ref_at v (v.nref - 1)) r)) [
    | inl e ↦ rw e (extend_back-Holds e)
    | inr e ↦ rw e (ground (arith, store_back-Holds e, grow_back-Holds e, w.in_word))
  ]

pub not_null : (p : ℕ) → p ≢ 0 → (p == 0) ≡ false
not_null p h = ground arith

module _ (r0 r1 r : BlockRef) where
  convert_to_big-Holds :
      total (r0 ∷ r1 ∷ []) + r.length < 2 ^ 32
      → Holds (big (convert_to_big r0 r1 r)) (r0 ∷ r1 ∷ r ∷ [])
  unfolding convert_to_big ref_list total
  convert_to_big-Holds h = (
    record {
      bits = 5;
      power = refl;
      in_word = omega arith;
      room = refl;
      start_in = omega arith;
      many = omega arith;
      fits = omega arith;
      counted = omega arith;
    },
    refl,
  )

  push_to_small-Holds :
      (move : Bool) (s : Store)
      → HasShape (small r0 r1)
      → IsRef r
      → total (ref_list (small r0 r1)) + r.length < 2 ^ 32
      → Holds (push_to_small move r0 r1 r s).0 (append_ref (ref_list (small r0 r1)) r)
  unfolding push_to_small ref_list append_ref merge
  push_to_small-Holds move s (inl (e0, e1)) h fits =
      rw (e0, e1) (inr (inl (h.to_block, refl)), rw (not_null r.block h.to_block))
  push_to_small-Holds move s (inr (inl (n0, e1))) h fits = elim (Bool-cases (merges r0 r)) [
    | inl m ↦ rw (e1, not_null r0.block n0, m) (inr (inl (n0, refl)), rw (not_null r0.block n0))
    | inr m ↦
        rw (e1, not_null r0.block n0, m)
          (inr (inr (n0, h.to_block)), rw (not_null r0.block n0, not_null r.block h.to_block))
  ]
  push_to_small-Holds move s (inr (inr (n0, n1))) h fits = elim (Bool-cases (merges r1 r)) [
    | inl m ↦
        rw (not_null r0.block n0, not_null r1.block n1, m)
          (inr (inr (n0, n1)), rw (not_null r0.block n0, not_null r1.block n1))
    | inr m ↦
        rw (not_null r0.block n0, not_null r1.block n1, m)
          (convert_to_big-Holds (rw (not_null r0.block n0, not_null r1.block n1) at fits))
  ]

push_back_ref-Holds :
    (move : Bool) (b : IoBuf) (r : BlockRef) (s : Store)
    → HasShape b
    → IsRef r
    → total (ref_list b) + r.length < 2 ^ 32
    → ref_num b < 2 ^ 30
    → Holds (push_back_ref move b r s).0 (append_ref (ref_list b) r)
unfolding push_back_ref ref_num ref_list after
push_back_ref-Holds move (small r0 r1) r s v h fits few =
    push_to_small-Holds r0 r1 r move s v h fits
push_back_ref-Holds move (big v) r s w h fits few = push_to_big-Holds w r fits few move s

-- Pushing a reference, with or without taking over the caller's share, keeps a valid buffer of
-- fewer than 2^30 references valid if fewer than 2^32 bytes result: afterwards it holds the same
-- references, in order, with the new one merged into the last one where it starts in the same block
-- where that one ends, and behind it otherwise. So for both views, the change from one to the
-- other, and the growth of the ring.
pub push_back_ref_appends :
    (move : Bool) (b : IoBuf) (r : BlockRef) (s : Store)
    → IsValid b
    → IsRef r
    → total (ref_list b) + r.length < 2 ^ 32
    → ref_num b < 2 ^ 30
    → IsValid (push_back_ref move b r s).0
      × (ref_list (push_back_ref move b r s).0 ≡ append_ref (ref_list b) r)
push_back_ref_appends move b r s v h fits few =
    let (shape, list) = push_back_ref-Holds move b r s v.shape h fits few in
    (
      record {
        shape = shape;
        each = rw list (append_ref-IsRef (ref_list b) r v.each h);
        bounded = rw list (omega (arith, total-append_ref (ref_list b) r fits));
      },
      list,
    )
