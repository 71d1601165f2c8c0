-- ===== src/Dispatcher/Frames.antt =====
-- Framing described on bytes alone: four bytes of length, which count themselves, then the rest.
use light_rpc.Prelude.{
  ℕ, zero, suc, ◌≤◌, ◌<◌, ◌≡◌, refl, ap₂, inl, inr, Bool, true, false, Bool-cases, ltb,
  if◌then◌else◌, List, [], ◌∷◌, ◌++◌, length, length-append, length-drop, take, drop, Option, none,
  some, arith,
}
use light_rpc.IoBuf.Cut.Lists.{take-append_within, drop-append_within}
use light_rpc.Dispatcher.{frame_header_bytes, ntohl}

pub data Next : Type 0 where
  more bad : Next
  frame : List ℕ → List ℕ → Next

unfoldable pub next_frame : List ℕ → Next
next_frame l =
    if ltb (length l) 4
    then more
    else if ltb (ntohl l) frame_header_bytes
    then bad
    else if ltb (length l) (ntohl l)
    then more
    else frame (take (ntohl l) l) (drop (ntohl l) l)

-- What a run returns, the frames it hands over, and the bytes left.
pub record Split : Type 0 where
  pub returned : Option ℕ
  pub frames : List (List ℕ)
  pub rest : List ℕ

abbrev pub add_frame : List ℕ → Split → Split
add_frame f p = record p { frames = f ∷ p.frames }

-- `lost i`: the i-th frame cannot be handed over.
abbrev pub after_next : (ℕ → Bool) → ℕ → Next → List ℕ → (List ℕ → Split) → Split
after_next lost count more l next = record { returned = some count; frames = []; rest = l }
after_next lost count bad l next = record { returned = none; frames = []; rest = l }
after_next lost count (frame f r) l next =
    let rest = add_frame f (next r) in
    if lost count then record { returned = none; frames = []; rest = r } else rest

unfoldable pub split_loop : (ℕ → Bool) → ℕ → ℕ → List ℕ → Split
split_loop lost zero count l = record { returned = some count; frames = []; rest = l }
split_loop lost (suc fuel) count l =
    after_next lost count (next_frame l) l (split_loop lost fuel (suc count))

unfoldable pub split : (ℕ → Bool) → ℕ → List ℕ → Split
split lost count l = split_loop lost (suc (length l)) count l

abbrev pub none_lost : ℕ → Bool
none_lost i = false

-- The cases of `next_frame`, and what holds in each.
pub data NextCase (l : List ℕ) : Type 0 where
  is_more : next_frame l ≡ more → NextCase l
  is_bad : next_frame l ≡ bad → 4 ≤ length l → ntohl l < frame_header_bytes → NextCase l
  is_frame :
      next_frame l ≡ frame (take (ntohl l) l) (drop (ntohl l) l)
      → frame_header_bytes ≤ ntohl l
      → ntohl l ≤ length l
      → NextCase l

pub next_frame-cases : (l : List ℕ) → NextCase l
unfolding next_frame
next_frame-cases l = elim (Bool-cases (ltb (length l) 4)) [
  | inl short ↦ is_more (rw short refl)
  | inr long ↦ elim (Bool-cases (ltb (ntohl l) frame_header_bytes)) [
    | inl low ↦ is_bad (rw (long, low) refl) (ground arith) (ground arith)
    | inr high ↦ elim (Bool-cases (ltb (length l) (ntohl l))) [
      | inl part ↦ is_more (rw (long, high, part) refl)
      | inr whole ↦ is_frame (rw (long, high, whole) refl) (ground arith) (ground arith)
    ]
  ]
]

ntohl-append : (l m : List ℕ) → 4 ≤ length l → ntohl (l ++ m) ≡ ntohl l
unfolding ntohl
ntohl-append [] m h = absurd (omega arith)
ntohl-append (a ∷ []) m h = absurd (omega arith)
ntohl-append (a ∷ b ∷ []) m h = absurd (omega arith)
ntohl-append (a ∷ b ∷ c ∷ []) m h = absurd (omega arith)
ntohl-append (a ∷ b ∷ c ∷ d ∷ l) m h = refl

-- More bytes behind a frame, or behind a bad header, change nothing of it.
pub next_frame-append :
    (l m : List ℕ)
    → frame_header_bytes ≤ ntohl l
    → ntohl l ≤ length l
    → next_frame (l ++ m) ≡ frame (take (ntohl l) l) (drop (ntohl l) l ++ m)
unfolding next_frame
next_frame-append l m low whole =
    let size = length-append l m in
    let same = ntohl-append l m (omega arith) in
    let long : ltb (length (l ++ m)) 4 ≡ false = ground (arith, size) in
    let high : ltb (ntohl l) frame_header_bytes ≡ false = ground arith in
    let all_here : ltb (length (l ++ m)) (ntohl l) ≡ false = ground (arith, size) in
    rw (long, same, high, all_here)
      (ap₂ frame (take-append_within l m (ntohl l) whole) (drop-append_within l m (ntohl l) whole))

pub next_frame-append_bad :
    (l m : List ℕ) → 4 ≤ length l → ntohl l < frame_header_bytes → next_frame (l ++ m) ≡ bad
unfolding next_frame
next_frame-append_bad l m h low =
    let size = length-append l m in
    let same = ntohl-append l m h in
    let long : ltb (length (l ++ m)) 4 ≡ false = ground (arith, size) in
    let small : ltb (ntohl l) frame_header_bytes ≡ true = ground arith in
    rw (long, same, small) refl

-- More rounds than bytes make no difference.
split_loop-fuel :
    (lost : ℕ → Bool) (fuel fuel' count : ℕ) (l : List ℕ)
    → length l < fuel
    → length l < fuel'
    → split_loop lost fuel count l ≡ split_loop lost fuel' count l
unfolding split_loop
split_loop-fuel lost zero fuel' count l h h' = absurd (omega arith)
split_loop-fuel lost (suc fuel) zero count l h h' = absurd (omega arith)
split_loop-fuel lost (suc fuel) (suc fuel') count l h h' = elim (next_frame-cases l) [
  | is_more e ↦ rw e refl
  | is_bad e long low ↦ rw e refl
  | is_frame e high whole ↦
      let shorter = length-drop (ntohl l) l in
      let rest =
        split_loop-fuel lost fuel fuel' (suc count) (drop (ntohl l) l) (omega (arith, shorter))
          (omega (arith, shorter)) in
      rw (e, rest) refl
]

pub split-frame :
    (lost : ℕ → Bool) (count : ℕ) (l f r : List ℕ)
    → next_frame l ≡ frame f r
    → length r < length l
    → split lost count l ≡ (
        if lost count
        then record { returned = none; frames = []; rest = r }
        else add_frame f (split lost (suc count) r))
unfolding split
split-frame lost count l f r e h =
    unfold split_loop in
    rw (e, split_loop-fuel lost (length l) (suc (length r)) (suc count) r h (omega arith)) refl

module _ (lost : ℕ → Bool) (count : ℕ) (l : List ℕ) where
  pub split-more :
      next_frame l ≡ more
      → split lost count l ≡ record { returned = some count; frames = []; rest = l }
  unfolding split split_loop
  split-more e = rw e refl

  pub split-bad :
      next_frame l ≡ bad → split lost count l ≡ record { returned = none; frames = []; rest = l }
  unfolding split split_loop
  split-bad e = rw e refl
