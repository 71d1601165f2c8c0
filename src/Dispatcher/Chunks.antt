-- ===== src/Dispatcher/Chunks.antt =====
-- Frames do not depend on how their bytes arrive.
use light_rpc.Prelude.{
  flatten, ℕ, zero, suc, ◌^◌, ◌<◌, ◌≡◌, refl, sym, subst, ap, ap₂, ◌∙◌, Bool, true, List, ◌∷◌, ◌++◌,
  append_assoc, map, length, length-append, length-drop, take, drop, take-append-drop, Option, some,
  arith,
}
use mathlib.Core.Option.{none-ne-some, some-injective}
use light_rpc.IoBuf.Store.{Store}
use light_rpc.IoBuf.View.{IoBuf, ref_list, ref_num, IsValid}
use light_rpc.IoBuf.Bytes.{bytes_of}
use light_rpc.IoBuf.Cut.Drops.{contents}
use light_rpc.Dispatcher.{ntohl, Processed, process_new_message}
use light_rpc.Dispatcher.Frames.{
  next_frame-cases, is_more, is_bad, is_frame, next_frame-append, none_lost, split, split-frame,
  split-more, split-bad,
}
use light_rpc.Dispatcher.Process.{ProcessedAs, process_new_message_lem}

-- The frames and the rest do not depend on the count.
split_count :
    (n c c' : ℕ) (l : List ℕ)
    → length l < n
    → ((split none_lost c l).frames ≡ (split none_lost c' l).frames)
      × ((split none_lost c l).rest ≡ (split none_lost c' l).rest)
split_count zero c c' l h = absurd (omega arith)
split_count (suc n) c c' l h = elim (next_frame-cases l) [
  | is_more e ↦ rw (split-more none_lost c l e, split-more none_lost c' l e) (refl, refl)
  | is_bad e long low ↦ rw (split-bad none_lost c l e, split-bad none_lost c' l e) (refl, refl)
  | is_frame e high whole ↦
      let shorter : length (drop (ntohl l) l) < length l = omega (arith, length-drop (ntohl l) l) in
      let (same, left) = split_count n (suc c) (suc c') (drop (ntohl l) l) (omega arith) in
      rw
        (
          split-frame none_lost c l (take (ntohl l) l) (drop (ntohl l) l) e shorter,
          split-frame none_lost c' l (take (ntohl l) l) (drop (ntohl l) l) e shorter,
        )
        (ap (◌∷◌ (take (ntohl l) l)) same, left)
]

-- The bytes of `p` with `m` behind them split as those of `p`, and then the rest with `m`.
split-append :
    (n c c' k : ℕ) (l m : List ℕ)
    → length l < n
    → (split none_lost c l).returned ≡ some k
    → ((split none_lost c (l ++ m)).frames
        ≡ (split none_lost c l).frames
          ++ (split none_lost c' ((split none_lost c l).rest ++ m)).frames)
      × ((split none_lost c (l ++ m)).rest
          ≡ (split none_lost c' ((split none_lost c l).rest ++ m)).rest)
split-append zero c c' k l m h r = absurd (omega arith)
split-append (suc n) c c' k l m h r = elim (next_frame-cases l) [
  | is_more e ↦
      rw (split-more none_lost c l e)
        (split_count (suc (length (l ++ m))) c c' (l ++ m) (omega arith))
  | is_bad e long low ↦ absurd (none-ne-some k (rw (split-bad none_lost c l e) at r))
  | is_frame e high whole ↦
      let rest = drop (ntohl l) l in
      let shorter : length rest < length l = omega (arith, length-drop (ntohl l) l) in
      let longer : length (rest ++ m) < length (l ++ m) =
        omega (arith, length-append l m, length-append rest m) in
      let here = split-frame none_lost c l (take (ntohl l) l) rest e shorter in
      let there =
        split-frame none_lost c (l ++ m) (take (ntohl l) l) (rest ++ m)
          (next_frame-append l m high whole) longer in
      let (same, left) = split-append n (suc c) c' k rest m (omega arith) (rw here at r) in
      rw (here, there) (ap (◌∷◌ (take (ntohl l) l)) same, left)
]

-- No byte is lost, invented or moved.
split-flatten :
    (n c : ℕ) (l : List ℕ)
    → length l < n
    → flatten (split none_lost c l).frames ++ (split none_lost c l).rest ≡ l
split-flatten zero c l h = absurd (omega arith)
split-flatten (suc n) c l h = elim (next_frame-cases l) [
  | is_more e ↦ rw (split-more none_lost c l e) refl
  | is_bad e long low ↦ rw (split-bad none_lost c l e) refl
  | is_frame e high whole ↦
      let rest = drop (ntohl l) l in
      let shorter : length rest < length l = omega (arith, length-drop (ntohl l) l) in
      let later = split none_lost (suc c) rest in
      rw (split-frame none_lost c l (take (ntohl l) l) rest e shorter) (
        append_assoc (take (ntohl l) l) (flatten later.frames) later.rest
        ∙ ap (◌++◌ (take (ntohl l) l)) (split-flatten n (suc c) rest (omega arith))
        ∙ take-append-drop (ntohl l) l)
]

abbrev pub always : ℕ → Bool
always i = true

abbrev pub run : IoBuf → Store → Option Processed
run b s = process_new_message none_lost always true b s

-- The bytes of the frames that a run from `s` handed over.
abbrev pub handed_over : Store → Processed → List (List ℕ)
handed_over s p = map (λ f. bytes_of s.bytes (ref_list f)) p.frames

-- Where the endpoint does not fail and every thread starts, the frames handed over and what is left
-- are the bytes that were there, in order. It supposes a valid buffer of fewer than 2^30 references.
pub process_new_message-flatten :
    (b : IoBuf) (s : Store)
    → IsValid b
    → ref_num b < 2 ^ 30
    → (p : Processed) × (run b s ≡ some p)
      × (flatten (handed_over s p) ++ bytes_of s.bytes (ref_list p.read_buf) ≡ contents b s)
process_new_message-flatten b s v few =
    let (p, same, done) = process_new_message_lem none_lost always b s v few in
    (
      p,
      same,
      ap₂ (λ fs r. flatten fs ++ r) done.frames done.rest
          ∙ split-flatten (suc (length (contents b s))) 0 (contents b s) (omega arith),
    )

-- A run over the bytes read so far that returns a count, and a second one over what it left with
-- more bytes behind, hand over the same frames, and leave the same bytes, as a single run over all
-- of them. It supposes three valid buffers of fewer than 2^30 references, no failure of the endpoint
-- and that every thread starts.
pub process_new_message-append :
    (b b' whole : IoBuf) (s s' t : Store) (p : Processed) (k : ℕ) (more : List ℕ)
    → IsValid b
    → IsValid b'
    → IsValid whole
    → ref_num b < 2 ^ 30
    → ref_num b' < 2 ^ 30
    → ref_num whole < 2 ^ 30
    → run b s ≡ some p
    → p.returned ≡ some k
    → contents b' s' ≡ bytes_of s.bytes (ref_list p.read_buf) ++ more
    → contents whole t ≡ contents b s ++ more
    → (p' all : Processed) × (run b' s' ≡ some p')
      × (run whole t ≡ some all)
      × (handed_over t all ≡ handed_over s p ++ handed_over s' p')
      × (bytes_of t.bytes (ref_list all.read_buf) ≡ bytes_of s'.bytes (ref_list p'.read_buf))
process_new_message-append b b' whole s s' t p k more v v' w f f' g first counted next all_bytes =
    let (q, same, done) = process_new_message_lem none_lost always b s v f in
    let (p', second, done') = process_new_message_lem none_lost always b' s' v' f' in
    let (p_all, single, done_all) = process_new_message_lem none_lost always whole t w g in
    let q-p : q ≡ p = some-injective q p (sym same ∙ first) in
    let before : ProcessedAs s p (split none_lost 0 (contents b s)) =
      subst (λ q. ProcessedAs s q (split none_lost 0 (contents b s))) q-p done in
    let (frames, left) =
      split-append (suc (length (contents b s))) 0 0 k (contents b s) more (omega arith)
        (sym before.returned ∙ counted) in
    let rest_more : (split none_lost 0 (contents b s)).rest ++ more ≡ contents b' s' =
      ap (λ r. r ++ more) (sym before.rest) ∙ sym next in
    (
      p',
      p_all,
      second,
      single,
      done_all.frames
          ∙ ap (λ l. (split none_lost 0 l).frames) all_bytes
          ∙ frames
          ∙ ap₂ (λ fs l. fs ++ (split none_lost 0 l).frames) (sym before.frames) rest_more
          ∙ ap (◌++◌ (handed_over s p)) (sym done'.frames),
      done_all.rest
          ∙ ap (λ l. (split none_lost 0 l).rest) all_bytes
          ∙ left
          ∙ ap (λ l. (split none_lost 0 l).rest) rest_more
          ∙ sym done'.rest,
    )
