-- ===== src/IoBuf/Blocks/Write.antt =====
-- Writing behind a block's size: what is read before it stays.
use light_rpc.Prelude.{
  ℕ, zero, suc, ◌+◌, ◌≤◌, ◌<◌, ◌≡◌, refl, sym, ap, ap₂, ◌∙◌, inl, inr, Bool-cases, List, [], ◌∷◌,
  ◌++◌, All, length, ◌==◌, update, arith,
}
use light_rpc.IoBuf.Store.{Store}
use light_rpc.IoBuf.View.{BlockRef, IsRef}
use light_rpc.IoBuf.Refs.{merges, merge}
use light_rpc.IoBuf.Ring.{append_ref, merge_end}
use light_rpc.IoBuf.Bytes.{slice, ref_bytes, bytes_of}
use light_rpc.IoBuf.Blocks.{write_bytes, store_bytes}

write_bytes-before : (d : ℕ → ℕ) (at i : ℕ) (xs : List ℕ) → i < at → write_bytes d at xs i ≡ d i
unfolding write_bytes
write_bytes-before d at i [] h = refl
write_bytes-before d at i (x ∷ xs) h =
    write_bytes-before (update d at x) (at + 1) i xs (omega arith) ∙ ground arith

slice_ext :
    (d d' : ℕ → ℕ) (o n : ℕ) → ((i : ℕ) → i < o + n → d' i ≡ d i) → slice d' o n ≡ slice d o n
unfolding slice
slice_ext d d' o zero h = refl
slice_ext d d' o (suc n) h =
    ap₂ ◌∷◌ (h o (omega arith)) (slice_ext d d' (suc o) n (λ i l. h i (omega arith)))

-- What was written is read back.
pub slice-write_bytes :
    (d : ℕ → ℕ) (at : ℕ) (xs : List ℕ) → slice (write_bytes d at xs) at (length xs) ≡ xs
unfolding slice write_bytes
slice-write_bytes d at [] = refl
slice-write_bytes d at (x ∷ xs) =
    let next : at + 1 ≡ suc at = omega arith in
    ap₂ ◌∷◌ (write_bytes-before (update d at x) (at + 1) at xs (omega arith) ∙ ground arith) (
      ap (λ k. slice (write_bytes (update d at x) (at + 1) xs) k (length xs)) (sym next)
      ∙ slice-write_bytes (update d at x) (at + 1) xs)

-- The references stay within what is written of their blocks.
abbrev pub Within : (ℕ → ℕ) → List BlockRef → Type 0
Within size rs = All (λ (r : BlockRef). r.offset + r.length ≤ size r.block) rs

-- They read the same after a write behind it.
pub bytes_of-store_bytes :
    (p : ℕ) (xs : List ℕ) (s : Store) (rs : List BlockRef)
    → Within s.size rs
    → bytes_of (store_bytes p xs s).bytes rs ≡ bytes_of s.bytes rs
unfolding bytes_of ref_bytes
bytes_of-store_bytes p xs s [] w = refl
bytes_of-store_bytes p xs s (r ∷ rs) w =
    ap₂ ◌++◌
      (slice_ext (s.bytes r.block) ((store_bytes p xs s).bytes r.block) r.offset r.length same)
      (bytes_of-store_bytes p xs s rs w.1)
  where
    same :
        (i : ℕ) → i < r.offset + r.length → (store_bytes p xs s).bytes r.block i ≡ s.bytes r.block i
    same i l = elim (Bool-cases (p == r.block)) [
      | inl e ↦
          let here : r.block ≡ p = ground arith in
          rw (e, here) (write_bytes-before (s.bytes p) (s.size p) i xs (ground (arith, w.0, here)))
      | inr e ↦ rw e refl
    ]

-- A reference that is appended, merged or not, ends where it did.
pub Within-append_ref :
    (size : ℕ → ℕ) (rs : List BlockRef) (r : BlockRef)
    → All IsRef rs
    → IsRef r
    → Within size rs
    → r.offset + r.length ≤ size r.block
    → Within size (append_ref rs r)
unfolding append_ref merge
Within-append_ref size [] r a h w l = (l, tt)
Within-append_ref size (x ∷ []) r a h w l = elim (Bool-cases (merges x r)) [
  | inl e ↦
      let (block, at_end, same) = merge_end x r a.0 h e in
      rw e (ground (arith, block, at_end, same), tt)
  | inr e ↦ rw e (w.0, (l, tt))
]
Within-append_ref size (x ∷ y ∷ ys) r a h w l = (w.0, Within-append_ref size (y ∷ ys) r a.1 h w.1 l)
