-- ===== src/Dispatcher/Process.antt =====
-- `ProcessNewMessage` against the framing of bytes.
use light_rpc.Prelude.{
  All, ℕ, zero, suc, ◌^◌, ◌<◌, ◌≡◌, refl, sym, ap, ap₂, ◌∙◌, inl, inr, Bool, true, not, ◌||◌,
  Bool-cases, List, [], ◌∷◌, map, length, length-drop, take, drop, Option, none, some, arith,
}
use light_rpc.IoBuf.Store.{Store}
use light_rpc.IoBuf.View.{IoBuf, buf_length, ref_list, ref_num, total, IsValid}
use light_rpc.IoBuf.Bytes.{bytes_of, length-bytes_of}
use light_rpc.IoBuf.Cut.{Cut, clear}
use light_rpc.IoBuf.Cut.Clear.{clear-Drops}
use light_rpc.IoBuf.Cut.Drops.{contents, buf_length-total, ref_num-length}
use light_rpc.Dispatcher.{ntohl, Processed, process_loop, process_new_message}
use light_rpc.Dispatcher.Frames.{
  more, bad, frame, next_frame-cases, is_more, is_bad, is_frame, Split, add_frame, split,
  split-frame, split-more, split-bad,
}
use light_rpc.Dispatcher.Cutting.{CutAs, cut_input_message_lem}

-- A run's buffers stand for what `q` says in bytes.
pub record ProcessedAs (s : Store) (p : Processed) (q : Split) : Type 0 where
  pub returned : p.returned ≡ q.returned
  pub frames : map (λ f. bytes_of s.bytes (ref_list f)) p.frames ≡ q.frames
  pub rest : bytes_of s.bytes (ref_list p.read_buf) ≡ q.rest
  pub valid : IsValid p.read_buf
  pub each : All IsValid p.frames
  pub memory : p.store.bytes ≡ s.bytes

abbrev pub lost : (failed spawns : ℕ → Bool) → ℕ → Bool
lost failed spawns i = failed i || not (spawns i)

module _ (failed spawns : ℕ → Bool) where
  abbrev Runs : ℕ → ℕ → IoBuf → Store → Type 0
  Runs fuel count b s =
      (p : Processed) × (process_loop failed spawns fuel count b s ≡ some p)
      × ProcessedAs s p (split (lost failed spawns) count (contents b s))

  -- The rounds before the last hand a frame over each.
  process_loop-split :
      (fuel count : ℕ) (b : IoBuf) (s : Store)
      → IsValid b
      → length (ref_list b) < 2 ^ 30
      → length (contents b s) < fuel
      → Runs fuel count b s
  unfolding process_loop
  process_loop-split zero count b s v few h = absurd (omega arith)
  process_loop-split (suc fuel) count b s v few h =
      let (c, run, cut) = cut_input_message_lem b s v (omega (arith, ref_num-length b v.shape)) in
      let l = contents b s in
      elim (next_frame-cases l) [
        | is_more e ↦
            let as_more : CutAs more b s c = rw e at cut in
            rw (run, e)
              (
                _,
                refl,
                stopped c (some count) as_more.left as_more.rest as_more.memory
                    (split-more (lost failed spawns) count l e),
              )
        | is_bad e long low ↦
            let as_bad : CutAs bad b s c = rw e at cut in
            rw (run, e)
              (
                _,
                refl,
                stopped c none as_bad.left as_bad.rest as_bad.memory
                    (split-bad (lost failed spawns) count l e),
              )
        | is_frame e high whole ↦
            let shorter : length (drop (ntohl l) l) < length l =
              omega (arith, length-drop (ntohl l) l) in
            let as_frame : CutAs (frame (take (ntohl l) l) (drop (ntohl l) l)) b s c =
              rw e at cut in
            let next =
              split-frame (lost failed spawns) count l (take (ntohl l) l) (drop (ntohl l) l) e
                shorter in
            let rest =
              process_loop-split fuel (suc count) c.self c.store as_frame.left
                (omega (arith, as_frame.fewer)) (omega (arith, ap length as_frame.rest)) in
            rw (run, e)
              (elim (Bool-cases (lost failed spawns count)) [
                | inl gone ↦ rw gone (_, refl, dropped c as_frame (next ∙ (rw gone refl)))
                | inr kept ↦
                    rw (kept, rest.1)
                      (_, refl, handed c as_frame rest.0 rest.2 (next ∙ (rw kept refl)))
              ])
      ]
    where
      stopped :
          (c : Cut) (r : Option ℕ)
          → IsValid c.self
          → contents c.self c.store ≡ contents b s
          → c.store.bytes ≡ s.bytes
          → split (lost failed spawns) count (contents b s)
            ≡ record { returned = r; frames = []; rest = contents b s }
          → ProcessedAs s
              (record { returned = r; read_buf = c.self; frames = []; store = c.store })
              (split (lost failed spawns) count (contents b s))
      stopped c r left same memory e = rw e (record {
        returned = refl;
        frames = refl;
        rest = ap (λ m. bytes_of m (ref_list c.self)) (sym memory) ∙ same;
        valid = left;
        each = tt;
        memory = memory;
      })

      dropped :
          (c : Cut) {f r : List ℕ}
          → CutAs (frame f r) b s c
          → split (lost failed spawns) count (contents b s)
            ≡ record { returned = none; frames = []; rest = r }
          → ProcessedAs s
              (record {
                returned = none;
                read_buf = c.self;
                frames = [];
                store = (clear c.out c.store).1;
              })
              (split (lost failed spawns) count (contents b s))
      dropped c cut e = rw e (record {
        returned = refl;
        frames = refl;
        rest = ap (λ m. bytes_of m (ref_list c.self)) (sym cut.memory) ∙ cut.rest;
        valid = cut.left;
        each = tt;
        memory =
            (clear-Drops (total (ref_list c.out)) c.out c.store cut.filled (omega arith)).memory
            ∙ cut.memory;
      })

      handed :
          (c : Cut) {f r : List ℕ}
          → CutAs (frame f r) b s c
          → (p : Processed)
          → ProcessedAs c.store p (split (lost failed spawns) (suc count) (contents c.self c.store))
          → split (lost failed spawns) count (contents b s)
            ≡ add_frame f (split (lost failed spawns) (suc count) r)
          → ProcessedAs s
              (record p { frames = c.out ∷ p.frames })
              (split (lost failed spawns) count (contents b s))
      handed c cut p later e =
          rw (e, sym cut.rest, sym cut.memory)
            (record {
              returned = later.returned;
              frames = ap₂ ◌∷◌ cut.out_bytes later.frames;
              rest = later.rest;
              valid = later.valid;
              each = (cut.filled, later.each);
              memory = later.memory;
            })

  -- With a handler set, `ProcessNewMessage` ends, hands over as frames what the bytes of the buffer
  -- split into, leaves the rest, and returns the count, or -1 at a bad length and at a frame
  -- that finds the endpoint failed or no thread; such a frame is gone. All buffers are valid, and no
  -- byte of a block changes. It supposes a valid buffer of fewer than 2^30 references.
  pub process_new_message_lem :
      (b : IoBuf) (s : Store)
      → IsValid b
      → ref_num b < 2 ^ 30
      → (p : Processed) × (process_new_message failed spawns true b s ≡ some p)
        × ProcessedAs s p (split (lost failed spawns) 0 (contents b s))
  unfolding process_new_message
  process_new_message_lem b s v few =
      process_loop-split (suc (buf_length b)) 0 b s v (omega (arith, ref_num-length b v.shape))
        (omega (arith, buf_length-total b v, length-bytes_of s.bytes (ref_list b)))
