-- ===== src/Dispatcher.antt =====
-- Cutting frames out of what was read (src-endpoint/message_dispatcher.cc). The handler and the
-- threads are outside: a frame is handed over as a value. `failed i` and `spawns i` are what the
-- endpoint's `Failed()` and the start of a thread answer for the i-th frame; the frames are those
-- that a thread was started for, in order.
pub mod Frames
pub mod Cutting
pub mod Process
pub mod Chunks
mod Tests
use light_rpc.Prelude.{
  ℕ, zero, suc, ◌+◌, ◌*◌, ◌^◌, Bool, true, false, not, ◌||◌, List, [], ◌∷◌, Option, none, some, ltb,
  if◌then◌else◌,
}
use light_rpc.IoBuf.Store.{Store}
use light_rpc.IoBuf.View.{IoBuf, empty_buf, buf_length}
use light_rpc.IoBuf.Cut.{Cut, clear, cutn}
use light_rpc.IoBuf.Copy.{copy_to}

-- kFrameHeaderBytes
abbrev pub frame_header_bytes : ℕ
frame_header_bytes = 12

-- `ntohl` of the four bytes at the front.
unfoldable pub ntohl : List ℕ → ℕ
ntohl (a ∷ b ∷ c ∷ d ∷ rest) = ((a * 256 + b) * 256 + c) * 256 + d
ntohl rest = 0

-- What is returned: 0, -1 with EPROTO, or 1.
pub data CutStatus : Type 0 where
  incomplete malformed complete : CutStatus

abbrev pub completed : Option (ℕ × Cut) → Option (CutStatus × Cut)
completed none = none
completed (some (n, c)) = some (complete, c)

unfoldable pub cut_input_message : IoBuf → IoBuf → Store → Option (CutStatus × Cut)
cut_input_message read_buf frame s =
    let same : Cut = record { self = read_buf; out = frame; store = s } in
    let total_len = ntohl (copy_to 4 0 read_buf s).0 in
    let cut = completed (cutn total_len read_buf frame s) in
    if ltb (buf_length read_buf) 4
    then some (incomplete, same)
    else if ltb total_len frame_header_bytes
    then some (malformed, same)
    else if ltb (buf_length read_buf) total_len
    then some (incomplete, same)
    else cut

-- `returned` is `none` for -1.
pub record Processed : Type 0 where
  pub returned : Option ℕ
  pub read_buf : IoBuf
  pub frames : List IoBuf
  pub store : Store

abbrev pub prepend_frame : IoBuf → Option Processed → Option Processed
prepend_frame f none = none
prepend_frame f (some p) = some (record p { frames = f ∷ p.frames })

module _ (failed spawns : ℕ → Bool) where
  -- One round, from the result of the cut on. A frame that is not handed over is destroyed.
  abbrev pub after_cut :
      ℕ → Option (CutStatus × Cut) → (IoBuf → Store → Option Processed) → Option Processed
  after_cut count none next = none
  after_cut count (some (malformed, c)) next =
      some (record { returned = none; read_buf = c.self; frames = []; store = c.store })
  after_cut count (some (incomplete, c)) next =
      some (record { returned = some count; read_buf = c.self; frames = []; store = c.store })
  after_cut count (some (complete, c)) next =
      let rest = prepend_frame c.out (next c.self c.store) in
      if failed count || not (spawns count)
      then some (record {
        returned = none;
        read_buf = c.self;
        frames = [];
        store = (clear c.out c.store).1;
      })
      else rest

  unfoldable pub process_loop : ℕ → ℕ → IoBuf → Store → Option Processed
  process_loop zero count b s = none
  process_loop (suc fuel) count b s =
      after_cut count (cut_input_message b empty_buf s) (process_loop fuel (suc count))

  -- Every frame has a byte, so that as many rounds as there are bytes, and one, are enough.
  unfoldable pub process_new_message : Bool → IoBuf → Store → Option Processed
  process_new_message has_handler b s =
      let run = process_loop (suc (buf_length b)) 0 b s in
      if has_handler
      then run
      else some (record { returned = some 0; read_buf = b; frames = []; store = s })
