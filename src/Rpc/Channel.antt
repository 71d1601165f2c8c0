-- ===== src/Rpc/Channel.antt =====
-- The first part of a call, up to the wait for its response, and the handler of responses
-- (src-endpoint/fast_channel.cc). Reading a response is an argument.
pub mod Calls
pub mod Responses
pub mod Responded
pub mod Settled
pub mod First
use light_rpc.Prelude.{
  ℕ, ◌+◌, ◌-◌, ◌*◌, ◌%◌, ◌^◌, Bool, true, false, not, List, [], ◌∷◌, ◌++◌, Option, none, some,
  ◌>>=◌, ltb, leb, ◌==◌, if◌then◌else◌, take, drop, length, find, insert,
}
use light_rpc.Prelude.Bits.{add32}
use light_rpc.Rpc.{
  msg_notify, msg_authority, msg_threshold, err_success, err_bad_response, read32, notify_frame,
  request_len, request_frame,
}
use light_rpc.Rpc.Large.{
  Segment, Conn, Env, can_start_large_transfer, start_large_transfer, store_large_frame,
  start_write, on_notify, on_authority,
}
use light_rpc.Rpc.Pending.{
  PendingRequest, Channel, Failure, transport, channel_closed, connection_failed,
  start_write_failed, set_failed, register_pending, erase_pending,
}

-- Where a call is after `begin_call`: over, in the wait for a large transfer, or in the wait for
-- its response.
pub data Begun (Response : Type 0) : Type 0 where
  ended : Failure → Channel Response → Begun Response
  blocked : Begun Response
  waits : ℕ → Channel Response → Begun Response

module _ {Response : Type 0} where
  -- The channel at each wake-up.
  unfoldable pub wait_for_large_writable :
      List (Channel Response) → Option (Bool × Channel Response)
  unfolding can_start_large_transfer start_large_transfer
  wait_for_large_writable [] = none
  wait_for_large_writable (ch ∷ wakes) =
      let rest = wait_for_large_writable wakes in
      if ch.closed
      then some (false, ch)
      else if can_start_large_transfer ch.conn
      then some (true, record ch { conn = start_large_transfer ch.conn })
      else rest

  module _ (env : Env) (segments : List ℕ → List Segment) where
    -- `errno` is what StartWrite left where it failed.
    abbrev pub after_notify : ℕ → ℕ → Bool × Conn → Channel Response → Begun Response
    after_notify rpc_id errno (true, c) ch = waits rpc_id (record ch { conn = c })
    after_notify rpc_id errno (false, c) ch =
        waits rpc_id (set_failed errno (record ch { conn = c }))

    abbrev pub send_large : ℕ → List ℕ → ℕ → ℕ → Option (Bool × Channel Response) → Begun Response
    send_large rpc_id frame total_len errno none = blocked
    send_large rpc_id frame total_len errno (some (false, ch)) =
        ended connection_failed (erase_pending rpc_id ch)
    send_large rpc_id frame total_len errno (some (true, ch)) =
        let stored = store_large_frame rpc_id (segments frame) ch.conn in
        after_notify rpc_id errno (start_write env (notify_frame rpc_id total_len) stored) ch

    abbrev pub send_small : ℕ → Bool × Conn → Channel Response → Begun Response
    send_small rpc_id (true, c) ch = waits rpc_id (record ch { conn = c })
    send_small rpc_id (false, c) ch =
        ended start_write_failed (erase_pending rpc_id (record ch { conn = c }))

    abbrev pub enqueue :
        (Channel Response → List (Channel Response))
        → ℕ
        → ℕ
        → List ℕ
        → ℕ
        → Option ℕ × Channel Response
        → Begun Response
    enqueue wakes rpc_id total_len frame errno (some error, ch) = ended (transport error) ch
    enqueue wakes rpc_id total_len frame errno (none, ch) =
        let large = send_large rpc_id frame total_len errno (wait_for_large_writable (wakes ch)) in
        if leb msg_threshold total_len
        then large
        else send_small rpc_id (start_write env frame ch.conn) ch

    -- `address` is what Address of the endpoint's id answers; `meta` has the bytes of the metadata for an
    -- rpc_id and an attachment size, `wakes` what happens to the channel in the wait for a transfer.
    unfoldable pub begin_call :
        Bool
        → (Channel Response → List (Channel Response))
        → (ℕ → ℕ → List ℕ)
        → List ℕ
        → ℕ
        → Channel Response
        → Begun Response
    unfolding set_failed register_pending wait_for_large_writable store_large_frame start_write
    begin_call address wakes meta payload errno ch =
        let rpc_id = ch.rpc_id in
        let attachment = ch.request_attachment in
        let meta_bytes = meta rpc_id (length attachment % 2 ^ 32) in
        let next = record ch { rpc_id = add32 rpc_id 1; request_attachment = [] } in
        if address
        then enqueue wakes rpc_id (request_len meta_bytes payload attachment)
            (request_frame rpc_id meta_bytes payload attachment) errno
            (register_pending rpc_id next)
        else ended channel_closed ch

  abbrev pub complete : ℕ → PendingRequest Response → Channel Response → Channel Response
  complete rpc_id p ch = record ch {
    pending_map = insert rpc_id (record p { done = true }) ch.pending_map;
  }

  abbrev pub parsed :
      Option Response
      → ℕ
      → PendingRequest Response
      → List ℕ
      → Channel Response
      → Bool × Channel Response
  parsed none rpc_id p attachment ch =
      (false, complete rpc_id (record p { error_code = err_bad_response }) ch)
  parsed (some r) rpc_id p attachment ch = (
    true,
    complete rpc_id (record p { response = some r; attachment = p.attachment ++ attachment }) ch,
  )

  module _ (env : Env) (parse_response : List ℕ → Option Response) where
    abbrev pub answer_success :
        PendingRequest Response → ℕ → ℕ → List ℕ → Channel Response → Bool × Channel Response
    answer_success p rpc_id attachment_size frame ch =
        let payload_len = (length frame - attachment_size) % 2 ^ 32 in
        let rest = drop payload_len frame in
        parsed (parse_response (take payload_len frame)) rpc_id p
          (if ltb 0 attachment_size then rest else []) ch

    -- For a call that is not done.
    abbrev pub answer_open :
        PendingRequest Response → ℕ → ℕ → ℕ → List ℕ → Channel Response → Bool × Channel Response
    answer_open p rpc_id error_code attachment_size frame ch =
        if ltb (length frame) attachment_size
        then (false, complete rpc_id (record p { error_code = err_bad_response }) ch)
        else if not (error_code == err_success)
        then (false, complete rpc_id (record p { error_code = error_code }) ch)
        else answer_success p rpc_id attachment_size frame ch

    abbrev pub answer :
        Option (PendingRequest Response)
        → ℕ
        → ℕ
        → ℕ
        → List ℕ
        → Channel Response
        → Bool × Channel Response
    answer none rpc_id error_code attachment_size frame ch = (false, ch)
    answer (some p) rpc_id error_code attachment_size frame ch =
        if p.done then (true, ch) else answer_open p rpc_id error_code attachment_size frame ch

    abbrev pub with_conn : Bool × Conn → Channel Response → Bool × Channel Response
    with_conn (r, c) ch = (r, record ch { conn = c })

    abbrev pub read_notify : ℕ → List ℕ → Channel Response → Option (Bool × Channel Response)
    read_notify rpc_id frame ch = do
      word ← read32 frame
      some (with_conn (on_notify env rpc_id word.0 ch.conn) ch)

    abbrev pub read_authority : ℕ → List ℕ → Channel Response → Option (Bool × Channel Response)
    read_authority rpc_id frame ch = do
      rkey ← read32 frame
      hi ← read32 rkey.1
      lo ← read32 hi.1
      some (with_conn (on_authority env rpc_id rkey.0 (hi.0 * 2 ^ 32 + lo.0) ch.conn) ch)

    abbrev pub read_response : ℕ → List ℕ → Channel Response → Option (Bool × Channel Response)
    read_response rpc_id frame ch = do
      error_code ← read32 frame
      attachment_size ← read32 error_code.1
      some (
          answer (find rpc_id ch.pending_map) rpc_id error_code.0 attachment_size.0
            attachment_size.1 ch)

    abbrev pub by_type : ℕ → ℕ → List ℕ → Channel Response → Option (Bool × Channel Response)
    by_type msg_type rpc_id frame ch =
        if msg_type == msg_notify
        then read_notify rpc_id frame ch
        else if msg_type == msg_authority
        then read_authority rpc_id frame ch
        else read_response rpc_id frame ch

    unfoldable pub on_process_response :
        List ℕ → Channel Response → Option (Bool × Channel Response)
    on_process_response frame ch = do
      msg_type ← read32 (drop 4 frame)
      rpc_id ← read32 msg_type.1
      by_type msg_type.0 rpc_id.0 rpc_id.1 ch
