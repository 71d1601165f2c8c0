-- ===== src/IoBuf/Copy.antt =====
-- `copy_to` of src-common/fast_iobuf.cc: bytes read without consuming them. A `for` loop over the
-- references is a recursion on their list.
use light_rpc.Prelude.{
  ℕ, ◌+◌, ◌-◌, ◌≤◌, ◌≡◌, refl, sym, ap, ◌∙◌, inl, inr, Bool-cases, ◌==◌, ltb, if◌then◌else◌, List,
  [], ◌∷◌, ◌++◌, append-nil, length, length-append, take, drop, min, collect, arith,
}
use light_rpc.IoBuf.Store.{Store}
use light_rpc.IoBuf.View.{BlockRef, IoBuf, small, big, ref_at, ref_num, ref_list, HasShape, IsValid}
use light_rpc.IoBuf.Bytes.{Memory, slice, ref_bytes, bytes_of, length-slice}
use light_rpc.IoBuf.Push.{not_null}
use light_rpc.IoBuf.Cut.Lists.{
  take-append_past, take-append_within, take_all, drop-append_past, drop-append_within, drop_all,
  drop-slice, take-slice,
}

-- The references as the loops reach them, `_ref_at(0)` to `_ref_at(_ref_num() - 1)`.
unfoldable pub refs_in_order : IoBuf → List BlockRef
refs_in_order b = collect (ref_at b) (ref_num b)

-- The first loop: skip `offset` bytes.
unfoldable pub copy_skip : ℕ → List BlockRef → ℕ × List BlockRef
copy_skip offset [] = (offset, [])
copy_skip offset (r ∷ rs) =
    if offset == 0
    then (offset, r ∷ rs)
    else if ltb offset r.length
    then (offset, r ∷ rs)
    else copy_skip (offset - r.length) rs

-- The second loop: the bytes copied, and what is left of `m`.
unfoldable pub copy_refs : Memory → ℕ → ℕ → List BlockRef → List ℕ × ℕ
copy_refs mem m offset [] = ([], m)
copy_refs mem m offset (r ∷ rs) =
    let nc = min m (r.length - offset) in
    let (more, left) = copy_refs mem (m - nc) 0 rs in
    if m == 0 then ([], m) else (slice (mem r.block) (r.offset + offset) nc ++ more, left)

-- What is written to `d`, and the number returned.
unfoldable pub copy_to : ℕ → ℕ → IoBuf → Store → List ℕ × ℕ
copy_to n pos b s =
    let (offset, rs) = copy_skip pos (refs_in_order b) in
    let (bytes, left) = copy_refs s.bytes n offset rs in (bytes, n - left)

pub refs_in_order_lem : (b : IoBuf) → HasShape b → refs_in_order b ≡ ref_list b
unfolding refs_in_order ref_list ref_at ref_num
refs_in_order_lem (small r0 r1) (inl (e0, e1)) = rw (e0, e1)
refs_in_order_lem (small r0 r1) (inr (inl (n0, e1))) = rw (e1, not_null r0.block n0)
refs_in_order_lem (small r0 r1) (inr (inr (n0, n1))) =
    rw (not_null r0.block n0, not_null r1.block n1)
refs_in_order_lem (big v) w = refl

-- `offset` falls in the first reference, if there is one.
abbrev HeadFits : ℕ → List BlockRef → Type 0
HeadFits offset [] = Unit
HeadFits offset (r ∷ rs) = offset ≤ r.length

take-slice-append :
    (d : ℕ → ℕ) (o k m : ℕ) (rest : List ℕ)
    → take m (slice d o k ++ rest) ≡ slice d o (min m k) ++ take (m - min m k) rest
take-slice-append d o k m rest = elim (Bool-cases (ltb m k)) [
  | inl within ↦
      let whole : min m k ≡ m = ground arith in
      let none_left : m - m ≡ 0 = omega arith in
      rw (whole, none_left)
        (take-append_within (slice d o k) rest m (ground (arith, length-slice d o k))
          ∙ take-slice d o k m (ground arith)
          ∙ sym (append-nil (slice d o m)))
  | inr past ↦
      let whole : min m k ≡ k = ground arith in
      rw whole (
        take-append_past (slice d o k) rest m (ground (arith, length-slice d o k))
        ∙ ap (λ j. slice d o k ++ take (m - j) rest) (length-slice d o k))
]

-- The second loop copies the next `m` bytes from `offset` on, and counts down by as many.
copy_refs_lem :
    (mem : Memory) (m offset : ℕ) (rs : List BlockRef)
    → HeadFits offset rs
    → ((copy_refs mem m offset rs).0 ≡ take m (drop offset (bytes_of mem rs)))
      × (length (copy_refs mem m offset rs).0 + (copy_refs mem m offset rs).1 ≡ m)
unfolding copy_refs bytes_of ref_bytes
copy_refs_lem mem m offset [] h = (
  sym (ap (take m) (drop_all [] offset (omega arith)) ∙ take_all [] m (omega arith)),
  omega arith,
)
copy_refs_lem mem m offset (r ∷ rs) h = elim (Bool-cases (m == 0)) [
  | inl z ↦ let zero_left : m ≡ 0 = ground arith in rw zero_left (refl, omega arith)
  | inr more ↦
      let (bytes, count) = copy_refs_lem mem (m - min m (r.length - offset)) 0 rs (first_fits rs) in
      rw more (
        ap (◌++◌ (slice (mem r.block) (r.offset + offset) (min m (r.length - offset)))) bytes
            ∙ sym (
                take-slice-append (mem r.block) (r.offset + offset) (r.length - offset) m
                  (bytes_of mem rs))
            ∙ ap (λ l. take m (l ++ bytes_of mem rs))
                (sym (drop-slice (mem r.block) r.offset r.length offset h))
            ∙ ap (take m) (
                sym (
                  drop-append_within (slice (mem r.block) r.offset r.length) (bytes_of mem rs)
                    offset (omega (arith, length-slice (mem r.block) r.offset r.length)))),
        omega (
          arith,
          count,
          length-append (slice (mem r.block) (r.offset + offset) (min m (r.length - offset)))
              (copy_refs mem (m - min m (r.length - offset)) 0 rs).0,
          length-slice (mem r.block) (r.offset + offset) (min m (r.length - offset)),
        ),
      )
]
  where
    first_fits : (rs : List BlockRef) → HeadFits 0 rs
    first_fits [] = tt
    first_fits (r ∷ rs) = omega arith

-- The first loop stops where the bytes from `offset` on begin.
copy_skip_lem :
    (mem : Memory) (offset : ℕ) (rs : List BlockRef)
    → HeadFits (copy_skip offset rs).0 (copy_skip offset rs).1
      × (drop (copy_skip offset rs).0 (bytes_of mem (copy_skip offset rs).1)
          ≡ drop offset (bytes_of mem rs))
unfolding copy_skip bytes_of ref_bytes
copy_skip_lem mem offset [] = (tt, refl)
copy_skip_lem mem offset (r ∷ rs) = elim (Bool-cases (offset == 0)) [
  | inl z ↦ let at_start : offset ≡ 0 = ground arith in rw at_start (omega arith, refl)
  | inr more ↦ elim (Bool-cases (ltb offset r.length)) [
    | inl within ↦ rw (more, within) (ground arith, refl)
    | inr past ↦
        let (fits, same) = copy_skip_lem mem (offset - r.length) rs in
        rw (more, past)
          (
            fits,
            same
                ∙ ap (λ k. drop (offset - k) (bytes_of mem rs))
                    (sym (length-slice (mem r.block) r.offset r.length))
                ∙ sym (
                    drop-append_past (slice (mem r.block) r.offset r.length) (bytes_of mem rs)
                      offset (ground (arith, length-slice (mem r.block) r.offset r.length))),
          )
  ]
]

-- `copy_to` writes the bytes of a valid buffer from `pos` on, `n` of them or all there are, in
-- order, and returns how many it wrote; a `pos` past the end writes none.
pub copy_to_lem :
    (n pos : ℕ) (b : IoBuf) (s : Store)
    → IsValid b
    → ((copy_to n pos b s).0 ≡ take n (drop pos (bytes_of s.bytes (ref_list b))))
      × ((copy_to n pos b s).1 ≡ length (copy_to n pos b s).0)
unfolding copy_to
copy_to_lem n pos b s v =
    let (fits, same) = copy_skip_lem s.bytes pos (refs_in_order b) in
    let (bytes, count) =
      copy_refs_lem s.bytes n (copy_skip pos (refs_in_order b)).0
        (copy_skip pos (refs_in_order b)).1 fits in
    (
      bytes
          ∙ ap (take n) same
          ∙ ap (λ rs. take n (drop pos (bytes_of s.bytes rs))) (refs_in_order_lem b v.shape),
      omega (arith, count),
    )
