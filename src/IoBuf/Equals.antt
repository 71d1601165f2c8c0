-- ===== src/IoBuf/Equals.antt =====
-- IOBuf::equals of src-common/fast_iobuf.cc, on the references as `_ref_at` reaches them. A round
-- compares up to the end of one of the two references; `none` means that the rounds ran out.
use light_rpc.Prelude.{
  ℕ, zero, suc, ◌+◌, ◌-◌, ◌≤◌, ◌<◌, ◌≡◌, ◌↔◌, refl, sym, ap, ap₂, ◌∙◌, inl, inr, Bool, true, false,
  not, ◌&&◌, Bool-cases, List, [], ◌∷◌, ◌++◌, Option, none, some, ◌⊎◌, append_assoc, length,
  length-append, min, leb, ◌==◌, if◌then◌else◌, arith,
}
use light_rpc.IoBuf.Store.{Store}
use light_rpc.IoBuf.View.{BlockRef, IoBuf, ref_list, ref_num, buf_length, total, IsValid}
use light_rpc.IoBuf.Bytes.{
  Memory, slice, slice_add, length-slice, ref_bytes, bytes_of, length-bytes_of,
}
use light_rpc.IoBuf.Copy.{refs_in_order, refs_in_order_lem}
use light_rpc.IoBuf.Cut.Drops.{contents, buf_length-total, ref_num-length}

-- `memcmp(...) == 0`
unfoldable pub same_bytes : List ℕ → List ℕ → Bool
same_bytes [] [] = true
same_bytes [] (y ∷ ys) = false
same_bytes (x ∷ xs) [] = false
same_bytes (x ∷ xs) (y ∷ ys) = x == y && same_bytes xs ys

abbrev past : ℕ → BlockRef → BlockRef
past n r = record r { offset = r.offset + n; length = r.length - n }

-- The next reference once this one is used up, or true at the end of the list.
abbrev pub next_ref :
    BlockRef → List BlockRef → (BlockRef → List BlockRef → Option Bool) → Option Bool
next_ref r [] next = if r.length == 0 then some true else next r []
next_ref r (x ∷ xs) next = if r.length == 0 then next x xs else next r (x ∷ xs)

unfoldable pub equals_loop :
    Memory → ℕ → BlockRef → List BlockRef → BlockRef → List BlockRef → Option Bool
equals_loop mem zero r rs q qs = none
equals_loop mem (suc fuel) r rs q qs =
    let cmplen = min r.length q.length in
    let rest =
      next_ref (past cmplen r) rs
        (λ r' rs'. next_ref (past cmplen q) qs (equals_loop mem fuel r' rs')) in
    if not (same_bytes (slice (mem r.block) r.offset cmplen) (slice (mem q.block) q.offset cmplen))
    then some false
    else rest

abbrev from_first : Memory → ℕ → List BlockRef → List BlockRef → Option Bool
from_first mem fuel [] qs = none
from_first mem fuel (r ∷ rs) [] = none
from_first mem fuel (r ∷ rs) (q ∷ qs) = equals_loop mem fuel r rs q qs

unfoldable pub equals : IoBuf → IoBuf → Store → Option Bool
equals b other s =
    if not (buf_length b == buf_length other)
    then some false
    else if buf_length b == 0
    then some true
    else from_first s.bytes (ref_num b + ref_num other) (refs_in_order b) (refs_in_order other)

same_bytes-append :
    (xs xs' ys ys' : List ℕ)
    → length xs ≡ length ys
    → same_bytes (xs ++ xs') (ys ++ ys') ≡ (same_bytes xs ys && same_bytes xs' ys')
unfolding same_bytes
same_bytes-append [] xs' [] ys' h = refl
same_bytes-append [] xs' (y ∷ ys) ys' h = absurd (omega (arith, h))
same_bytes-append (x ∷ xs) xs' [] ys' h = absurd (omega (arith, h))
same_bytes-append (x ∷ xs) xs' (y ∷ ys) ys' h = elim (Bool-cases (x == y)) [
  | inl e ↦ rw e (same_bytes-append xs xs' ys ys' (omega (arith, h)))
  | inr e ↦ rw e refl
]

same_bytes_iff : (xs ys : List ℕ) → (same_bytes xs ys ≡ true) ↔ (xs ≡ ys)
unfolding same_bytes
same_bytes_iff [] [] = (λ h. refl, λ h. refl)
same_bytes_iff [] (y ∷ ys) = (λ h. absurd cc, λ h. absurd (omega (arith, ap length h)))
same_bytes_iff (x ∷ xs) [] = (λ h. absurd cc, λ h. absurd (omega (arith, ap length h)))
same_bytes_iff (x ∷ xs) (y ∷ ys) = elim (Bool-cases (x == y)) [
  | inl e ↦
      let same : x ≡ y = ground arith in
      rw e (λ h. ap₂ ◌∷◌ same ((same_bytes_iff xs ys).0 h), λ h. (same_bytes_iff xs ys).1 cc)
  | inr e ↦ rw e (λ h. absurd cc, λ h. absurd (differ e cc))
]
  where
    differ : (x == y) ≡ false → x ≡ y → ⊥
    differ e h = ground arith

past-bytes :
    (mem : Memory) (r : BlockRef) (n : ℕ)
    → n ≤ r.length
    → ref_bytes mem r ≡ slice (mem r.block) r.offset n ++ ref_bytes mem (past n r)
unfolding ref_bytes
past-bytes mem r n h =
    let parts : r.length ≡ n + (r.length - n) = omega (arith, h) in
    ap (slice (mem r.block) r.offset) parts ∙ slice_add (mem r.block) r.offset n (r.length - n)

past-bytes_of :
    (mem : Memory) (r : BlockRef) (n : ℕ) (rs : List BlockRef)
    → n ≤ r.length
    → bytes_of mem (r ∷ rs) ≡ slice (mem r.block) r.offset n ++ bytes_of mem (past n r ∷ rs)
unfolding bytes_of
past-bytes_of mem r n rs h =
    ap (λ l. l ++ bytes_of mem rs) (past-bytes mem r n h)
    ∙ append_assoc (slice (mem r.block) r.offset n) (ref_bytes mem (past n r)) (bytes_of mem rs)

no_bytes : (xs : List ℕ) → length xs ≡ 0 → xs ≡ []
no_bytes [] h = refl
no_bytes (x ∷ xs) h = absurd (omega arith)

-- Both ways a reference is left, for the one result.
next_ref_lem :
    (mem : Memory) (r : BlockRef) (rs : List BlockRef)
    (next : BlockRef → List BlockRef → Option Bool) (result : Option Bool)
    → ((x : BlockRef) (xs : List BlockRef)
        → bytes_of mem (x ∷ xs) ≡ bytes_of mem (r ∷ rs)
        → length xs ≤ length rs
        → (r.length ≡ 0 → length xs < length rs)
        → next x xs ≡ result)
    → (r.length ≡ 0 → rs ≡ [] → some true ≡ result)
    → next_ref r rs next ≡ result
unfolding bytes_of ref_bytes slice
next_ref_lem mem r [] next result f g = elim (Bool-cases (r.length == 0)) [
  | inl e ↦ rw e (g (ground arith) refl)
  | inr e ↦ rw e (f r [] refl (omega arith) (λ z. ground arith))
]
next_ref_lem mem r (x ∷ xs) next result f g = elim (Bool-cases (r.length == 0)) [
  | inl e ↦
      let none_left : r.length ≡ 0 = ground arith in
      rw e (
        f x xs (sym (ap (λ n. slice (mem r.block) r.offset n ++ bytes_of mem (x ∷ xs)) none_left))
          (omega arith) (λ z. omega arith))
  | inr e ↦ rw e (f r (x ∷ xs) refl (omega arith) (λ z. absurd (ground arith)))
]

equals_loop_lem :
    (mem : Memory) (fuel : ℕ) (r : BlockRef) (rs : List BlockRef) (q : BlockRef)
    (qs : List BlockRef)
    → length rs + length qs < fuel
    → length (bytes_of mem (r ∷ rs)) ≡ length (bytes_of mem (q ∷ qs))
    → equals_loop mem fuel r rs q qs
      ≡ some (same_bytes (bytes_of mem (r ∷ rs)) (bytes_of mem (q ∷ qs)))
unfolding equals_loop total
equals_loop_lem mem zero r rs q qs h t = absurd (omega arith)
equals_loop_lem mem (suc fuel) r rs q qs h t =
    let n = min r.length q.length in
    let xs = slice (mem r.block) r.offset n in
    let ys = slice (mem q.block) q.offset n in
    let xs' = bytes_of mem (past n r ∷ rs) in
    let ys' = bytes_of mem (past n q ∷ qs) in
    let first : bytes_of mem (r ∷ rs) ≡ xs ++ xs' = past-bytes_of mem r n rs (omega arith) in
    let second : bytes_of mem (q ∷ qs) ≡ ys ++ ys' = past-bytes_of mem q n qs (omega arith) in
    let cut : length xs ≡ length ys =
      omega (arith, length-slice (mem r.block) r.offset n, length-slice (mem q.block) q.offset n) in
    let after : length xs' ≡ length ys' = omega (
      arith,
      t,
      cut,
      ap length first,
      ap length second,
      length-append xs xs',
      length-append ys ys',
    ) in
    let split : same_bytes (bytes_of mem (r ∷ rs)) (bytes_of mem (q ∷ qs))
        ≡ (same_bytes xs ys && same_bytes xs' ys') =
      ap₂ same_bytes first second ∙ same_bytes-append xs xs' ys ys' cut in
    let target = some (same_bytes xs' ys') in
    elim (Bool-cases (same_bytes xs ys)) [
      | inr differ ↦ rw (split, differ) refl
      | inl same ↦
          rw (split, same)
            (next_ref_lem mem (past n r) rs _ target
              (λ a aa e1 l1 m1.
                next_ref_lem mem (past n q) qs _ target
                  (λ b bs e2 l2 m2.
                    equals_loop_lem mem fuel a aa b bs (shorter (length aa) (length bs) l1 m1 l2 m2)
                      (omega (arith, after, ap length e1, ap length e2))
                    ∙ ap some (ap₂ same_bytes e1 e2))
                  (λ z none_left.
                    ap some (sym (both_empty xs' ys' after (inr (ended q n qs z none_left))))))
              (λ z none_left.
                ap some (sym (both_empty xs' ys' after (inl (ended r n rs z none_left))))))
    ]
  where
    both_empty :
        (xs ys : List ℕ) → length xs ≡ length ys → (xs ≡ []) ⊎ (ys ≡ []) → same_bytes xs ys ≡ true
    both_empty xs ys h (inl e) =
        (same_bytes_iff xs ys).1 (e ∙ sym (no_bytes ys (omega (arith, h, ap length e))))
    both_empty xs ys h (inr e) =
        (same_bytes_iff xs ys).1 (no_bytes xs (omega (arith, h, ap length e)) ∙ sym e)

    ended :
        (x : BlockRef) (n : ℕ) (xs : List BlockRef)
        → x.length - n ≡ 0
        → xs ≡ []
        → bytes_of mem (past n x ∷ xs) ≡ []
    ended x n xs z none_left =
        no_bytes (bytes_of mem (past n x ∷ xs))
          (omega (arith, z, length-bytes_of mem (past n x ∷ xs), ap total none_left))

    -- One of the two references is used up.
    shorter :
        (a b : ℕ)
        → a ≤ length rs
        → (r.length - min r.length q.length ≡ 0 → a < length rs)
        → b ≤ length qs
        → (q.length - min r.length q.length ≡ 0 → b < length qs)
        → a + b < fuel
    shorter a b l1 m1 l2 m2 = elim (Bool-cases (leb r.length q.length)) [
      | inl e ↦ let less = m1 (ground arith) in omega (arith, h, less, l2)
      | inr e ↦ let less = m2 (ground arith) in omega (arith, h, less, l1)
    ]

from_first_lem :
    (mem : Memory) (fuel : ℕ) (xs ys : List BlockRef)
    → length xs + length ys ≤ fuel
    → length (bytes_of mem xs) ≡ length (bytes_of mem ys)
    → 0 < length (bytes_of mem xs)
    → from_first mem fuel xs ys ≡ some (same_bytes (bytes_of mem xs) (bytes_of mem ys))
unfolding bytes_of
from_first_lem mem fuel [] ys h t p = absurd (omega arith)
from_first_lem mem fuel (x ∷ xs) [] h t p = absurd (omega (arith, t, p))
from_first_lem mem fuel (x ∷ xs) (y ∷ ys) h t p = equals_loop_lem mem fuel x xs y ys (omega arith) t

-- `equals` ends, and is true exactly where the two buffers hold the same bytes, however these are cut
-- into references. It supposes two valid buffers.
pub equals_lem :
    (b other : IoBuf) (s : Store)
    → IsValid b
    → IsValid other
    → (r : Bool) × (equals b other s ≡ some r) × ((r ≡ true) ↔ (contents b s ≡ contents other s))
unfolding equals
equals_lem b other s v w =
    let lb = buf_length-total b v in
    let lo = buf_length-total other w in
    let cb = length-bytes_of s.bytes (ref_list b) in
    let co = length-bytes_of s.bytes (ref_list other) in
    elim (Bool-cases (buf_length b == buf_length other)) [
      | inr e ↦ rw e (
        false,
        refl,
        (
          λ h. absurd cc,
          λ h. absurd (lengths_differ e (omega (arith, lb, lo, cb, co, ap length h))),
        ),
      )
      | inl e ↦ elim (Bool-cases (buf_length b == 0)) [
        | inl z ↦
            rw (e, z)
              (
                true,
                refl,
                (
                  λ h.
                      no_bytes (contents b s) (ground (arith, lb, cb))
                      ∙ sym (no_bytes (contents other s) (ground (arith, lo, co))),
                  λ h. refl,
                ),
              )
        | inr n ↦
            let xs = refs_in_order b in
            let ys = refs_in_order other in
            let bx : bytes_of s.bytes xs ≡ contents b s =
              ap (bytes_of s.bytes) (refs_in_order_lem b v.shape) in
            let by_ : bytes_of s.bytes ys ≡ contents other s =
              ap (bytes_of s.bytes) (refs_in_order_lem other w.shape) in
            let run =
              from_first_lem s.bytes (ref_num b + ref_num other) xs ys
                (omega (
                  arith,
                  ref_num-length b v.shape,
                  ref_num-length other w.shape,
                  ap length (refs_in_order_lem b v.shape),
                  ap length (refs_in_order_lem other w.shape),
                ))
                (ground (arith, ap length bx, ap length by_, lb, lo, cb, co))
                (ground (arith, ap length bx, lb, cb)) in
            rw (e, n)
              (
                same_bytes (contents b s) (contents other s),
                run ∙ ap some (ap₂ same_bytes bx by_),
                same_bytes_iff (contents b s) (contents other s),
              )
      ]
    ]
  where
    lengths_differ :
        (buf_length b == buf_length other) ≡ false → buf_length b ≡ buf_length other → ⊥
    lengths_differ e h = ground arith
