-- ===== src/IoBuf/Bytes.antt =====
-- The bytes that references stand for, over the blocks' memory.
use light_rpc.Prelude.{
  All, ℕ, zero, suc, ◌+◌, ◌≡◌, refl, sym, ap, ap₂, ◌∙◌, Bool, true, false, inl, inr, Bool-cases,
  List, [], ◌∷◌, ◌++◌, append_assoc, append-nil, length, length-append, arith,
}
use light_rpc.IoBuf.Store.{Store, inc_ref, dec_ref}
use light_rpc.IoBuf.View.{BlockRef, IoBuf, small, big, total, IsRef}
use light_rpc.IoBuf.Refs.{
  merges, merge, push_to_small, push_to_big, push_back_ref, pop_front_ref, pop_back_ref,
}
use light_rpc.IoBuf.Ring.{append_ref, merge_end}

abbrev pub Memory : Type 0
Memory = ℕ → ℕ → ℕ

-- `n` bytes of a block from `offset` on.
unfoldable pub slice : (ℕ → ℕ) → ℕ → ℕ → List ℕ
slice d offset zero = []
slice d offset (suc n) = d offset ∷ slice d (suc offset) n

unfoldable pub ref_bytes : Memory → BlockRef → List ℕ
ref_bytes m r = slice (m r.block) r.offset r.length

unfoldable pub bytes_of : Memory → List BlockRef → List ℕ
bytes_of m [] = []
bytes_of m (r ∷ rs) = ref_bytes m r ++ bytes_of m rs

pub length-slice : (d : ℕ → ℕ) (o n : ℕ) → length (slice d o n) ≡ n
unfolding slice
length-slice d o zero = refl
length-slice d o (suc n) = ap suc (length-slice d (suc o) n)

pub slice_add : (d : ℕ → ℕ) (o a b : ℕ) → slice d o (a + b) ≡ slice d o a ++ slice d (o + a) b
unfolding slice
slice_add d o zero b =
    let e : zero + b ≡ b = omega arith in let f : o + zero ≡ o = omega arith in rw (e, f)
slice_add d o (suc a) b =
    let e : suc a + b ≡ suc (a + b) = omega arith in
    let f : o + suc a ≡ suc o + a = omega arith in
    rw (e, f) (ap (◌∷◌ (d o)) (slice_add d (suc o) a b))

pub length-bytes_of : (m : Memory) (xs : List BlockRef) → length (bytes_of m xs) ≡ total xs
unfolding bytes_of total ref_bytes
length-bytes_of m [] = refl
length-bytes_of m (x ∷ xs) = omega (
  arith,
  length-append (slice (m x.block) x.offset x.length) (bytes_of m xs),
  length-slice (m x.block) x.offset x.length,
  length-bytes_of m xs,
)

pub bytes_of-append :
    (m : Memory) (xs ys : List BlockRef) → bytes_of m (xs ++ ys) ≡ bytes_of m xs ++ bytes_of m ys
unfolding bytes_of
bytes_of-append m [] ys = refl
bytes_of-append m (x ∷ xs) ys =
    ap (◌++◌ (ref_bytes m x)) (bytes_of-append m xs ys)
    ∙ sym (append_assoc (ref_bytes m x) (bytes_of m xs) (bytes_of m ys))

bytes-merge :
    (m : Memory) (x r : BlockRef)
    → IsRef x
    → IsRef r
    → merges x r ≡ true
    → ref_bytes m (merge x r) ≡ ref_bytes m x ++ ref_bytes m r
unfolding ref_bytes merge
bytes-merge m x r a h e =
    let (block, at_end, size) = merge_end x r a h e in
    ap (slice (m x.block) x.offset) size
    ∙ slice_add (m x.block) x.offset x.length r.length
    ∙ ap₂ (λ p o. slice (m x.block) x.offset x.length ++ slice (m p) o r.length) block at_end

-- Appending a reference appends its bytes, also where it is merged into the last one.
pub bytes_of-append_ref :
    (m : Memory) (xs : List BlockRef) (r : BlockRef)
    → All IsRef xs
    → IsRef r
    → bytes_of m (append_ref xs r) ≡ bytes_of m xs ++ ref_bytes m r
unfolding bytes_of append_ref
bytes_of-append_ref m [] r a h = append-nil (ref_bytes m r)
bytes_of-append_ref m (x ∷ []) r a h = elim (Bool-cases (merges x r)) [
  | inl e ↦ rw e (
      append-nil _
      ∙ bytes-merge m x r a.0 h e
      ∙ ap (λ l. l ++ ref_bytes m r) (sym (append-nil (ref_bytes m x))))
  | inr e ↦ rw e (ap₂ ◌++◌ (sym (append-nil (ref_bytes m x))) (append-nil (ref_bytes m r)))
]
bytes_of-append_ref m (x ∷ y ∷ ys) r a h =
    ap (◌++◌ (ref_bytes m x)) (bytes_of-append_ref m (y ∷ ys) r a.1 h)
    ∙ sym (append_assoc (ref_bytes m x) (bytes_of m (y ∷ ys)) (ref_bytes m r))

bytes-inc_ref : (p : ℕ) (s : Store) → (inc_ref p s).bytes ≡ s.bytes
unfolding inc_ref
bytes-inc_ref p s = refl

pub bytes-dec_ref : (p : ℕ) (s : Store) → (dec_ref p s).bytes ≡ s.bytes
unfolding dec_ref
bytes-dec_ref p s = ground arith

pub bytes-push_back_ref :
    (move : Bool) (b : IoBuf) (r : BlockRef) (s : Store)
    → (push_back_ref move b r s).1.bytes ≡ s.bytes
unfolding push_back_ref push_to_small push_to_big
bytes-push_back_ref move (small r0 r1) r s =
    ground (arith, bytes-inc_ref r.block s, bytes-dec_ref r.block s)
bytes-push_back_ref move (big v) r s =
    ground (arith, bytes-inc_ref r.block s, bytes-dec_ref r.block s)

pub bytes-pop_front_ref :
    (move_out : Bool) (b : IoBuf) (s : Store) → (pop_front_ref move_out b s).2.bytes ≡ s.bytes
unfolding pop_front_ref
bytes-pop_front_ref move_out (small r0 r1) s = ground (arith, bytes-dec_ref r0.block s)
bytes-pop_front_ref true (big v) s = refl
bytes-pop_front_ref false (big v) s = bytes-dec_ref _ s

pub bytes-pop_back_ref : (b : IoBuf) (s : Store) → (pop_back_ref b s).2.bytes ≡ s.bytes
unfolding pop_back_ref
bytes-pop_back_ref (small r0 r1) s =
    ground (arith, bytes-dec_ref r0.block s, bytes-dec_ref r1.block s)
bytes-pop_back_ref (big v) s = bytes-dec_ref _ s
