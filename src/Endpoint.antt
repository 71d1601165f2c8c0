-- ===== src/Endpoint.antt =====
-- The send and receive windows of an endpoint (src-endpoint/fast_rdma_endpoint.cc,
-- inc/fast_rdma_endpoint.h). `Flow` has the fields that count work requests; an operation returns it
-- changed, with what it does to the queue pair and the buffers as a list of effects, the first first.
-- An `int` is its 32-bit word. `post` is ibv_post_send, true where it returns 0; `post_recv` is
-- ibv_post_recv, true where its result is not negative, which is the code's test: the positive errno of
-- a call that failed passes it; `next_ok` whether the receive slot's stream gives a block; one call is one step.
pub mod Posting
pub mod Windows
pub mod Credits
pub mod SgList
mod Tests
use light_rpc.Prelude.{
  ℕ, zero, suc, ◌+◌, ◌-◌, ◌*◌, ◌/◌, ◌%◌, ◌^◌, Bool, true, false, not, ◌&&◌, ◌||◌, List, [], ◌∷◌,
  ◌++◌, Option, none, some, ◌>>=◌, min, ltb, leb, ◌==◌, if◌then◌else◌,
}
use light_rpc.Prelude.Bits.{add32, sub32, int_lt}
use light_rpc.Hello.{HelloMessage, hello_negotiation_valid}

-- Division of an `int` by a positive constant, towards 0.
abbrev pub int_div : ℕ → ℕ → ℕ
int_div x k = if ltb x (2 ^ 31) then x / k else sub32 0 ((2 ^ 32 - x) / k)

-- Of a word in a little-endian machine.
abbrev pub htonl_word : ℕ → ℕ
htonl_word x = x % 256 * 2 ^ 24 + x / 256 % 256 * 2 ^ 16 + x / 65536 % 256 * 256 + x / 2 ^ 24 % 256

abbrev pub ntohs_word : ℕ → ℕ
ntohs_word x = x % 256 * 256 + x / 256 % 256

-- RESERVED_WR_NUM
abbrev pub reserved_wr_num : ℕ
reserved_wr_num = 3

pub record Flow : Type 0 where
  pub local_capacity : ℕ
  pub remote_capacity : ℕ
  pub sq_window : ℕ
  pub remote_rq_window : ℕ
  pub sq_imm_window : ℕ
  pub new_rq_wrs : ℕ
  pub sbuf_size : ℕ
  pub sq_current : ℕ
  pub sq_sent : ℕ
  pub rbuf_size : ℕ
  pub rq_received : ℕ
  pub sq_unsignaled : ℕ
  pub unsolicited : ℕ
  pub accumulated_ack : ℕ
  pub remote_recv_block_size : ℕ

-- The fields of an `ibv_send_wr` that the windows depend on.
pub record SendWr : Type 0 where
  pub imm_data : ℕ
  pub solicited : Bool
  pub signaled : Bool
  pub wr_id : ℕ

pub data Effect : Type 0 where
  post_send : SendWr → Effect
  post_receive : ℕ → Bool → Effect
  clear_sbuf clear_rbuf : ℕ → Effect
  cut_rbuf copy_rbuf : ℕ → ℕ → Effect
  wake_for_writable : Effect

-- The sizes of this side's queues, of 16 bits.
pub record QueueSizes : Type 0 where
  pub sq_size : ℕ
  pub rq_size : ℕ

-- "Set negotiated params" in both handshakes, from the remote side's message.
abbrev pub negotiate : QueueSizes → HelloMessage → Flow → Flow
negotiate own remote f =
    let local = sub32 (min own.sq_size remote.rq_size) reserved_wr_num in
    record f {
      remote_recv_block_size = remote.block_size;
      local_capacity = local;
      remote_capacity = sub32 (min own.rq_size remote.sq_size) reserved_wr_num;
      sq_window = local;
      remote_rq_window = local;
      sq_imm_window = reserved_wr_num;
    }

-- The rings, in AllocateResources; `none` where `sbuf_.resize` throws.
abbrev pub resize_rings : QueueSizes → Flow → Option Flow
resize_rings own f =
    if ltb own.sq_size reserved_wr_num
    then none
    else some (record f { sbuf_size = own.sq_size - reserved_wr_num; rbuf_size = own.rq_size })

-- What the two handshakes do to the windows and the rings: AllocateResources is the first step of
-- ProcessHandshakeAtClient, and follows the remote side's message in ProcessHandshakeAtServer. A message
-- that is not accepted is `none` too.
abbrev pub client_params : QueueSizes → HelloMessage → Flow → Option Flow
client_params own remote f = do
  allocated ← resize_rings own f
  if hello_negotiation_valid remote then some (negotiate own remote allocated) else none

abbrev pub server_params : QueueSizes → HelloMessage → Flow → Option Flow
server_params own remote f =
    if hello_negotiation_valid remote then resize_rings own (negotiate own remote f) else none

unfoldable pub is_writable : Flow → Bool
is_writable f = int_lt 0 f.sq_window && int_lt 0 f.remote_rq_window

-- The next slot of a ring of `size` slots.
abbrev pub next_slot : ℕ → ℕ → ℕ
next_slot i size = if i + 1 == size then 0 else i + 1

-- The slots of a batch that was sent, cleared one by one.
unfoldable pub release_slots : ℕ → Flow → Flow × List Effect
release_slots zero f = (f, [])
release_slots (suc n) f =
    let (after, effects) =
      release_slots n (record f { sq_sent = next_slot f.sq_sent f.sbuf_size }) in
    let skipped = release_slots n f in
    if ltb f.sq_sent f.sbuf_size then (after, clear_sbuf f.sq_sent ∷ effects) else skipped

-- Is the other side asked for an event?
unfoldable pub is_solicited : Bool → Flow → Bool
is_solicited last f =
    f.remote_rq_window == 1
    || f.sq_window == 1
    || last
    || int_lt (int_div f.local_capacity 4) f.unsolicited
    || int_lt (int_div f.remote_capacity 4) f.accumulated_ack

-- Is a completion asked for?
abbrev pub is_signaled : Flow → Bool
is_signaled f = not (int_lt (add32 f.sq_unsignaled 1) (int_div f.local_capacity 4))

-- The work request of a round, which carries all credits there are.
abbrev pub data_wr : Bool → Flow → SendWr
data_wr last f = record {
  imm_data = htonl_word f.new_rq_wrs;
  solicited = is_solicited last f;
  signaled = is_signaled f;
  wr_id = if is_signaled f then add32 f.sq_unsignaled 1 else 0;
}

-- The counters of the round, whether or not the request is posted.
abbrev pub counted : Bool → Flow → Flow
counted last f = record f {
  new_rq_wrs = 0;
  unsolicited = if is_solicited last f then 0 else add32 f.unsolicited 1;
  accumulated_ack = if is_solicited last f then 0 else add32 f.accumulated_ack f.new_rq_wrs;
  sq_unsignaled = if is_signaled f then 0 else add32 f.sq_unsignaled 1;
}

module _ (post : SendWr → Bool) where
  unfoldable pub send_imm : ℕ → Flow → Bool × Flow × List Effect
  send_imm imm f =
      let wr : SendWr = record {
        imm_data = htonl_word imm;
        solicited = true;
        signaled = true;
        wr_id = 0;
      } in
      if imm == 0
      then (true, f, [])
      else if post wr
      then (true, record f { sq_imm_window = sub32 f.sq_imm_window 1 }, post_send wr ∷ [])
      else (false, f, [])

  unfoldable pub send_ack : ℕ → Flow → Bool × Flow × List Effect
  send_ack num f =
      let total = add32 f.new_rq_wrs num in
      if int_lt (int_div f.remote_capacity 2) total && int_lt 0 f.sq_imm_window
      then send_imm total (record f { new_rq_wrs = 0 })
      else (true, record f { new_rq_wrs = total }, [])

  -- The rest of a round of `CutFromIOBufList`, once bytes stand in the slot's buffer.
  unfoldable pub post_data : Bool → Flow → Bool × Flow × List Effect
  post_data last f =
      let wr = data_wr last f in
      let before = counted last f in
      if post wr
      then (
        true,
        record before {
          sq_current = next_slot f.sq_current f.sbuf_size;
          remote_rq_window = sub32 f.remote_rq_window 1;
          sq_window = sub32 f.sq_window 1;
        },
        post_send wr ∷ [],
      )
      else (false, before, [])

abbrev pub wake_if : Bool → List Effect
wake_if true = wake_for_writable ∷ []
wake_if false = []

-- `IBV_WC_SEND` of a signaled batch.
unfoldable pub batch_sent : ℕ → Flow → Flow × List Effect
batch_sent wr_id f =
    let (released, effects) = release_slots wr_id f in
    (
      record released { sq_window = add32 f.sq_window wr_id },
      effects ++ wake_if (not (int_lt f.remote_rq_window (int_div f.local_capacity 8))),
    )

-- The credits that come with a receive.
unfoldable pub take_credits : Bool → ℕ → Flow → Flow × List Effect
take_credits with_imm imm_data f =
    let acks = ntohs_word imm_data in
    let wnd_thresh = int_div f.local_capacity 8 in
    if with_imm && ltb 0 imm_data
    then (
      record f { remote_rq_window = add32 f.remote_rq_window acks },
      wake_if (int_lt 0 f.sq_window && (leb wnd_thresh f.remote_rq_window || leb wnd_thresh acks)),
    )
    else (f, [])

module _ (next_ok : ℕ → Bool) (post_recv : ℕ → Bool) where
  -- `num` receives from the current slot on; `all` have been asked for.
  unfoldable pub post_recv_loop : ℕ → ℕ → Bool → Flow → Bool × Flow × List Effect
  post_recv_loop all zero zerocopy f = (true, record f { new_rq_wrs = add32 f.new_rq_wrs all }, [])
  post_recv_loop all (suc n) zerocopy f =
      let slot = f.rq_received in
      let cleared = if zerocopy then clear_rbuf slot ∷ [] else [] in
      let (ok, f', effects) =
        post_recv_loop all n zerocopy (record f { rq_received = next_slot slot f.rbuf_size }) in
      if zerocopy && not (next_ok slot)
      then (false, f, cleared)
      else if post_recv slot
      then (ok, f', cleared ++ post_receive slot zerocopy ∷ effects)
      else (false, f, cleared ++ clear_rbuf slot ∷ [])

  abbrev pub post_recv_wrs : ℕ → Bool → Flow → Bool × Flow × List Effect
  post_recv_wrs num zerocopy f = post_recv_loop num num zerocopy f

-- The work completions that HandleCompletion tells apart, each with the fields it reads.
pub data Completion : Type 0 where
  send_done : ℕ → Completion
  recv_done : ℕ → Bool → ℕ → Completion
  other_done : Completion

-- The bytes received go to the read buffer, by reference or copied.
abbrev pub take_bytes : ℕ → Bool → Flow → List Effect
take_bytes byte_len zerocopy f =
    if byte_len == 0
    then []
    else if zerocopy
    then cut_rbuf f.rq_received byte_len ∷ []
    else copy_rbuf f.rq_received byte_len ∷ []

module _ (post : SendWr → Bool) (next_ok : ℕ → Bool) (post_recv : ℕ → Bool) (zerocopy_min : ℕ) where
  -- After the receive has been posted again.
  abbrev pub ack_recv : ℕ → List Effect → Bool × Flow × List Effect → Option ℕ × Flow × List Effect
  ack_recv byte_len before (false, f, effects) = (none, f, before ++ effects)
  ack_recv byte_len before (true, f, effects) =
      let (ok, f', acked) = send_ack post 1 f in
      if byte_len == 0
      then (some byte_len, f, before ++ effects)
      else (some byte_len, f', before ++ effects ++ acked)

  abbrev pub received : ℕ → Bool → ℕ → Flow → Option ℕ × Flow × List Effect
  received byte_len with_imm imm_data f =
      let zerocopy = byte_len == 0 || leb zerocopy_min byte_len in
      let (credited, woken) = take_credits with_imm imm_data f in
      ack_recv byte_len (take_bytes byte_len zerocopy f ++ woken)
        (post_recv_wrs next_ok post_recv 1 zerocopy credited)

  -- The result is `none` for -1.
  unfoldable pub handle_completion : Completion → Flow → Option ℕ × Flow × List Effect
  handle_completion (send_done zero) f =
      let (ok, f', effects) =
        send_ack post 0 (record f { sq_imm_window = add32 f.sq_imm_window 1 }) in
      (some 0, f', effects)
  handle_completion (send_done (suc n)) f =
      let (f', effects) = batch_sent (suc n) f in (some 0, f', effects)
  handle_completion (recv_done byte_len with_imm imm_data) f = received byte_len with_imm imm_data f
  handle_completion other_done f = (none, f, [])
