-- ===== src/IoBuf/Shares.antt =====
-- The shares of a block: `nshared` against the references that are held to it.
use light_rpc.Prelude.{
  ℕ, ◌+◌, ◌-◌, ◌≤◌, ◌≡◌, refl, ap, ◌∙◌, Bool, true, false, inl, inr, Bool-cases, ◌==◌,
  if◌then◌else◌, List, [], ◌∷◌, ◌++◌, collect, arith,
}
use light_rpc.IoBuf.Store.{Store, inc_ref, dec_ref}
use light_rpc.IoBuf.View.{
  BlockRef, IoBuf, small, big, HasShape, ref_list, ring_ref_at, capacity, front_ref, back_ref,
}
use light_rpc.IoBuf.Push.{last_split, not_null}
use light_rpc.IoBuf.Pop.{empty_ne_snoc}
use light_rpc.IoBuf.Refs.{
  merges, merge, share, settle, push_to_small, push_to_big, push_back_ref, pop_front_ref,
  pop_back_ref,
}
use light_rpc.IoBuf.Ring.{append_ref}

abbrev pub one : ℕ → ℕ → ℕ
one p q = if p == q then 1 else 0

-- How many of the references are to block `p`.
unfoldable pub shares : ℕ → List BlockRef → ℕ
shares p [] = 0
shares p (r ∷ rs) = one r.block p + shares p rs

-- Every reference of the list is counted in its block.
abbrev pub Counted : Store → List BlockRef → Type 0
Counted s xs = (p : ℕ) → shares p xs ≤ s.nshared p

-- From `xs` in `s` to `ys` in `t` every block's count moved with the references held to it.
abbrev pub Balanced : Store → List BlockRef → Store → List BlockRef → Type 0
Balanced s xs t ys = (p : ℕ) → t.nshared p + shares p xs ≡ s.nshared p + shares p ys

pub shares-append :
    (p : ℕ) (xs ys : List BlockRef) → shares p (xs ++ ys) ≡ shares p xs + shares p ys
unfolding shares
shares-append p [] ys = omega arith
shares-append p (x ∷ xs) ys = omega (arith, shares-append p xs ys)

pub nshared-inc_ref : (p q : ℕ) (s : Store) → (inc_ref p s).nshared q ≡ s.nshared q + one p q
unfolding inc_ref
nshared-inc_ref p q s = ground arith

pub nshared-dec_ref :
    (p q : ℕ) (s : Store) → 1 ≤ s.nshared p → (dec_ref p s).nshared q + one p q ≡ s.nshared q
unfolding dec_ref
nshared-dec_ref p q s h = ground arith

-- Is a reference pushed behind `xs` merged into the last one?
last_merges : List BlockRef → BlockRef → Bool
last_merges [] r = false
last_merges (x ∷ []) r = merges x r
last_merges (x ∷ y ∷ ys) r = last_merges (y ∷ ys) r

last_merges_snoc :
    (xs : List BlockRef) (y r : BlockRef) → last_merges (xs ++ (y ∷ [])) r ≡ merges y r
unfolding last_merges
last_merges_snoc [] y r = refl
last_merges_snoc (x ∷ []) y r = refl
last_merges_snoc (x ∷ x' ∷ xs) y r = last_merges_snoc (x' ∷ xs) y r

shares-append_ref :
    (p : ℕ) (xs : List BlockRef) (r : BlockRef)
    → shares p (append_ref xs r) ≡ shares p xs + (if last_merges xs r then 0 else one r.block p)
unfolding shares append_ref last_merges merge
shares-append_ref p [] r = omega arith
shares-append_ref p (x ∷ []) r = elim (Bool-cases (merges x r)) [
  | inl e ↦ rw e (omega arith)
  | inr e ↦ rw e (omega arith)
]
shares-append_ref p (x ∷ y ∷ ys) r = omega (arith, shares-append_ref p (y ∷ ys) r)

-- The store after a push depends on the merging alone.
store-push_back_ref :
    (move : Bool) (b : IoBuf) (r : BlockRef) (s : Store)
    → HasShape b
    → (push_back_ref move b r s).1
      ≡ (if last_merges (ref_list b) r then settle move r.block s else share move r.block s)
unfolding push_back_ref push_to_small push_to_big ref_list last_merges
store-push_back_ref move (small r0 r1) r s (inl (e0, e1)) = rw e0
store-push_back_ref move (small r0 r1) r s (inr (inl (n0, e1))) =
    rw (e1, not_null r0.block n0) (elim (Bool-cases (merges r0 r)) [ inl m ↦ rw m | inr m ↦ rw m ])
store-push_back_ref move (small r0 r1) r s (inr (inr (n0, n1))) =
    rw (not_null r0.block n0, not_null r1.block n1)
      (elim (Bool-cases (merges r1 r)) [ inl m ↦ rw m | inr m ↦ rw m ])
store-push_back_ref move (big v) r s w =
    rw
      (ap (λ l. last_merges l r) (last_split w r)
        ∙ last_merges_snoc (collect (ring_ref_at v) (v.nref - 1)) (ring_ref_at v (v.nref - 1)) r)
      (elim (Bool-cases (merges (ring_ref_at v (v.nref - 1)) r)) [
        | inl m ↦ rw m
        | inr m ↦ rw m (elim (Bool-cases (v.nref == capacity v)) [ inl c ↦ rw c | inr c ↦ rw c ])
      ])

-- A copied reference takes a share of its own, unless it is merged; a moved one brings its share
-- along, and gives it up if it is merged.
pub push_back_ref-shares :
    (move : Bool) (b : IoBuf) (r : BlockRef) (s : Store) (p : ℕ)
    → HasShape b
    → (move ≡ true → 1 ≤ s.nshared r.block)
    → (push_back_ref move b r s).1.nshared p
        + (shares p (ref_list b) + (if move then one r.block p else 0))
      ≡ s.nshared p + shares p (append_ref (ref_list b) r)
push_back_ref-shares move b r s p h own =
    rw (store-push_back_ref move b r s h, shares-append_ref p (ref_list b) r)
      (split move (last_merges (ref_list b) r) own)
  where
    split :
        (move m : Bool)
        → (move ≡ true → 1 ≤ s.nshared r.block)
        → (if m then settle move r.block s else share move r.block s).nshared p
            + (shares p (ref_list b) + (if move then one r.block p else 0))
          ≡ s.nshared p + (shares p (ref_list b) + (if m then 0 else one r.block p))
    split true true own = omega (arith, nshared-dec_ref r.block p s (own refl))
    split true false own = omega arith
    split false true own = omega arith
    split false false own = omega (arith, nshared-inc_ref r.block p s)

pub pop_front_ref-store :
    (move_out : Bool) (b : IoBuf) (s : Store) (x : BlockRef) (xs : List BlockRef)
    → HasShape b
    → ref_list b ≡ x ∷ xs
    → (pop_front_ref move_out b s).2 ≡ (if move_out then s else dec_ref (front_ref b).block s)
unfolding pop_front_ref front_ref ref_list
pop_front_ref-store move_out (small r0 r1) s x xs h e = ground arith
pop_front_ref-store move_out (big v) s x xs h e = refl

pub pop_back_ref-store :
    (b : IoBuf) (s : Store) (xs : List BlockRef) (x : BlockRef)
    → HasShape b
    → ref_list b ≡ xs ++ (x ∷ [])
    → (pop_back_ref b s).2 ≡ dec_ref (back_ref b).block s
unfolding pop_back_ref back_ref ref_list
pop_back_ref-store (small r0 r1) s xs x (inl (e0, e1)) e = absurd (empty_ne_snoc xs x (rw e0 at e))
pop_back_ref-store (small r0 r1) s xs x (inr (inl (n0, e1))) e = rw (e1, not_null r0.block n0)
pop_back_ref-store (small r0 r1) s xs x (inr (inr (n0, n1))) e = rw (not_null r1.block n1)
pop_back_ref-store (big v) s xs x h e = refl
