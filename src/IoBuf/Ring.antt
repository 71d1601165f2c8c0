-- ===== src/IoBuf/Ring.antt =====
-- Places in the ring of a BigView: where an index falls, and what a write there leaves alone.
use native.Mathlib.Decide.{dec_lt}
use native.Mathlib.Nat.{mod-eq_of_lt, mod-eq-sub-mod, mod-lt}
use light_rpc.Prelude.{
  All, append_assoc, Bool-cases, ◌^◌, true, ℕ, suc, ◌+◌, ◌-◌, ◌%◌, ◌≤◌, ◌<◌, ◌≡◌, refl, sym, ap,
  ◌∙◌, ◌≢◌, ◌⊎◌, inl, inr, List, [], ◌∷◌, ◌++◌, if◌then◌else◌, length, get_or, set, get_or-set_self,
  get_or-set_ne, collect, collect_ext, collect_snoc, arith,
}
use light_rpc.Prelude.Bits.{bit_and_mask}
use light_rpc.IoBuf.View.{BlockRef, null_ref, BigView, ref_index, ring_ref_at, total, IsRing, IsRef}
use light_rpc.IoBuf.Refs.{merges, merge}

wrap_cases : (x c : ℕ) → x < c + c → ((x % c ≡ x) × (x < c)) ⊎ (x % c + c ≡ x)
wrap_cases x c h = elim (dec_lt x c) [
  | yes p ↦ inl (mod-eq_of_lt p, p)
  | no p ↦ inr (
      omega (
        arith,
        mod-eq-sub-mod {n = x} {m = c} (omega arith),
        mod-eq_of_lt {n = x - c} {m = c} (omega arith),
      ))
]

pub mod_distinct : (a i j c : ℕ) → a < c → i < c → j < c → i ≢ j → (a + i) % c ≢ (a + j) % c
mod_distinct a i j c ha hi hj ne =
    ground (arith, wrap_cases (a + i) c (omega arith), wrap_cases (a + j) c (omega arith))

module _ {v : BigView} (w : IsRing v) where
  -- The mask takes the remainder by the capacity.
  pub ref_index_mod :
      (i : ℕ) → i ≤ v.cap_mask + 1 → ref_index v i ≡ (v.start + i) % (v.cap_mask + 1)
  ref_index_mod i h =
      bit_and_mask w.bits v.cap_mask _ w.power
      ∙ ap (λ (t : ℕ). t % (v.cap_mask + 1)) (omega (arith, w.in_word, w.start_in))

  pub ref_index-lt : (i : ℕ) → i ≤ v.cap_mask + 1 → ref_index v i < length v.refs
  ref_index-lt i h =
      omega
        (arith, ref_index_mod i h, w.room, mod-lt (v.start + i) {m = v.cap_mask + 1} (omega arith))

  pub ref_index_distinct :
      (i j : ℕ) → i < v.cap_mask + 1 → j < v.cap_mask + 1 → i ≢ j → ref_index v i ≢ ref_index v j
  ref_index_distinct i j hi hj ne =
      rw (ref_index_mod i (omega arith), ref_index_mod j (omega arith))
        (mod_distinct v.start i j (v.cap_mask + 1) w.start_in hi hj ne)

  -- A write at place `j` changes no other place.
  pub write_elsewhere :
      (i j : ℕ) (r : BlockRef)
      → i < v.cap_mask + 1
      → j < v.cap_mask + 1
      → i ≢ j
      → get_or (set v.refs (ref_index v j) r) (ref_index v i) null_ref ≡ ring_ref_at v i
  write_elsewhere i j r hi hj ne =
      get_or-set_ne v.refs (ref_index v j) (ref_index v i) r null_ref
        (ref_index_distinct j i hj hi (λ e. ne (sym e)))

  -- Writing the place after the first `n` adds the reference behind them.
  pub collect_write :
      (n : ℕ) (r : BlockRef)
      → n < v.cap_mask + 1
      → collect (λ i. get_or (set v.refs (ref_index v n) r) (ref_index v i) null_ref) (suc n)
        ≡ collect (ring_ref_at v) n ++ (r ∷ [])
  collect_write n r h = rw (
    collect_snoc _ n,
    get_or-set_self v.refs (ref_index v n) r null_ref (ref_index-lt n (omega arith)),
    collect_ext _ (ring_ref_at v) n (λ i l. write_elsewhere i n r (omega arith) h (omega arith)),
  )

-- The reference list after a push: the last reference grows, or one more follows.
unfoldable pub append_ref : List BlockRef → BlockRef → List BlockRef
append_ref [] r = r ∷ []
append_ref (x ∷ []) r = if merges x r then merge x r ∷ [] else x ∷ r ∷ []
append_ref (x ∷ y ∷ ys) r = x ∷ append_ref (y ∷ ys) r

pub append_ref_snoc :
    (xs : List BlockRef) (y r : BlockRef)
    → append_ref (xs ++ (y ∷ [])) r ≡ xs ++ (if merges y r then merge y r ∷ [] else y ∷ r ∷ [])
unfolding append_ref
append_ref_snoc [] y r = refl
append_ref_snoc (x ∷ []) y r = refl
append_ref_snoc (x ∷ x' ∷ xs) y r = ap (◌∷◌ x) (append_ref_snoc (x' ∷ xs) y r)

pub append_ref_split :
    (ys xs : List BlockRef) (y r : BlockRef)
    → ys ≡ xs ++ (y ∷ [])
    → append_ref ys r ≡ (if merges y r then xs ++ (merge y r ∷ []) else ys ++ (r ∷ []))
append_ref_split ys xs y r e =
    rw (e, append_ref_snoc xs y r)
      (elim (Bool-cases (merges y r)) [
        | inl m ↦ rw m
        | inr m ↦ rw m (sym (append_assoc xs (y ∷ []) (r ∷ [])))
      ])

pub total-append : (xs ys : List BlockRef) → total (xs ++ ys) ≡ total xs + total ys
unfolding total
total-append [] ys = omega arith
total-append (x ∷ xs) ys = omega (arith, total-append xs ys)

pub total-append_ref :
    (xs : List BlockRef) (r : BlockRef)
    → total xs + r.length < 2 ^ 32
    → total (append_ref xs r) ≡ total xs + r.length
unfolding append_ref total merge
total-append_ref [] r h = omega arith
total-append_ref (x ∷ []) r h = elim (Bool-cases (merges x r)) [
  | inl e ↦ rw e (omega arith)
  | inr e ↦ rw e (omega arith)
]
total-append_ref (x ∷ y ∷ ys) r h = omega (arith, total-append_ref (y ∷ ys) r (omega arith))

-- A merged reference ends where the second one ended.
pub merge_end :
    (x r : BlockRef)
    → IsRef x
    → IsRef r
    → merges x r ≡ true
    → (x.block ≡ r.block)
      × (x.offset + x.length ≡ r.offset)
      × ((merge x r).length ≡ x.length + r.length)
unfolding merge merges
merge_end x r a h e = ground arith

merge-IsRef : (x r : BlockRef) → IsRef x → IsRef r → merges x r ≡ true → IsRef (merge x r)
unfolding merge
merge-IsRef x r a h e = ground (arith, merge_end x r a h e)

pub append_ref-IsRef :
    (xs : List BlockRef) (r : BlockRef) → All IsRef xs → IsRef r → All IsRef (append_ref xs r)
unfolding append_ref
append_ref-IsRef [] r a h = (h, tt)
append_ref-IsRef (x ∷ []) r a h = elim (Bool-cases (merges x r)) [
  | inl e ↦ rw e (merge-IsRef x r a.0 h e, tt)
  | inr e ↦ rw e (a.0, (h, tt))
]
append_ref-IsRef (x ∷ y ∷ ys) r a h = (a.0, append_ref-IsRef (y ∷ ys) r a.1 h)

pub length-append_ref :
    (xs : List BlockRef) (r : BlockRef) → length (append_ref xs r) ≤ suc (length xs)
unfolding append_ref
length-append_ref [] r = omega arith
length-append_ref (x ∷ []) r = ground arith
length-append_ref (x ∷ y ∷ ys) r = omega (arith, length-append_ref (y ∷ ys) r)
