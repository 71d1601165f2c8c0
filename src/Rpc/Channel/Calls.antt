-- ===== src/Rpc/Channel/Calls.antt =====
-- A small request from `CallMethod` to its frame, and the end of a call that was answered.
use light_rpc.Prelude.{
  ℕ, ◌%◌, ◌^◌, ◌<◌, ◌≡◌, ap, ap₂, ◌∙◌, true, false, not, ◌&&◌, List, [], ◌∷◌, ◌++◌, some, leb, ◌==◌,
  if_true, if_false, length, arith, find, insert, erase, find-insert,
}
use light_rpc.Prelude.Bits.{add32}
use light_rpc.Rpc.{msg_threshold, err_success, request_len, request_frame}
use light_rpc.Rpc.Large.{Segment, Conn, Env, start_write}
use light_rpc.Rpc.Pending.{
  PendingRequest, Channel, succeeded, new_pending, register_pending, end_wait, finish_call, finish,
  mark_timed_out, outcome, keep_attachment, erase_pending,
}
use light_rpc.Rpc.Channel.{waits, begin_call, complete, send_small, enqueue}

pub start_write_lem :
    (env : Env) (frame : List ℕ) (c : Conn)
    → c.failed ≡ false
    → env.accepts frame ≡ true
    → start_write env frame c ≡ (true, record c { written = c.written ++ (frame ∷ []) })
unfolding start_write
start_write_lem env frame c alive accepted =
    let both : (not c.failed && env.accepts frame) ≡ true =
      ap₂ (λ f a. not f && a) alive accepted in
    if_true _ _ both

module _ {Response : Type 0} where
  abbrev registered : ℕ → Channel Response → Channel Response
  registered rpc_id ch = record ch {
    rpc_id = add32 rpc_id 1;
    request_attachment = [];
    pending_map = insert rpc_id new_pending ch.pending_map;
  }

  -- The channel in which a request frame was queued and its call registered.
  abbrev pub called : ℕ → List ℕ → Channel Response → Channel Response
  called rpc_id frame ch = record ch {
    conn = record ch.conn { written = ch.conn.written ++ (frame ∷ []) };
    rpc_id = add32 rpc_id 1;
    request_attachment = [];
    pending_map = insert rpc_id new_pending ch.pending_map;
  }

  module _ (env : Env) (segments : List ℕ → List Segment)
      (wakes : Channel Response → List (Channel Response)) where
    -- A call below the threshold of large messages, on a channel that works.
    pub begin_call_small :
        (meta : ℕ → ℕ → List ℕ) (payload : List ℕ) (errno : ℕ) (ch : Channel Response)
        → let bytes = meta ch.rpc_id (length ch.request_attachment % 2 ^ 32) in
          let frame = request_frame ch.rpc_id bytes payload ch.request_attachment in
          ch.connection_error ≡ 0
          → ch.conn.failed ≡ false
          → env.accepts frame ≡ true
          → request_len bytes payload ch.request_attachment < msg_threshold
          → begin_call env segments true wakes meta payload errno ch
            ≡ waits ch.rpc_id (called ch.rpc_id frame ch)
    unfolding begin_call register_pending
    begin_call_small meta payload errno ch works alive accepted small =
        let bytes = meta ch.rpc_id (length ch.request_attachment % 2 ^ 32) in
        let frame = request_frame ch.rpc_id bytes payload ch.request_attachment in
        let below : leb msg_threshold (request_len bytes payload ch.request_attachment) ≡ false =
          ground arith in
        let zero_error : (ch.connection_error == 0) ≡ true = ground arith in
        ap
          (enqueue env segments wakes ch.rpc_id (request_len bytes payload ch.request_attachment)
            frame errno)
          (if_true _ _ zero_error)
        ∙ if_false _ _ below
        ∙ ap (λ w. send_small env segments ch.rpc_id w (registered ch.rpc_id ch))
            (start_write_lem env frame ch.conn alive accepted)

  abbrev pub finished : ℕ → PendingRequest Response → Channel Response → Channel Response
  finished rpc_id p ch = record ch {
    response_attachment = p.attachment;
    pending_map = erase rpc_id (insert rpc_id (record p { done = true }) ch.pending_map);
  }

  found :
      (ch : Channel Response) (p : PendingRequest Response) (rpc_id : ℕ)
      → find rpc_id (insert rpc_id p ch.pending_map) ≡ some p
  found ch p rpc_id =
      let same : (rpc_id == rpc_id) ≡ true = ground arith in
      find-insert rpc_id rpc_id p ch.pending_map ∙ if_true _ _ same

  outcome_lem :
      (p : PendingRequest Response)
      → p.timed_out ≡ false
      → p.transport_error ≡ 0
      → p.error_code ≡ err_success
      → outcome p ≡ succeeded p.response
  outcome_lem p on_time no_error success =
      let sent : not (p.transport_error == 0) ≡ false = ground arith in
      let good : not (p.error_code == err_success) ≡ false = ground arith in
      if_false _ _ on_time ∙ if_false _ _ sent ∙ if_false _ _ good

  -- A call that was completed with a response ends with it, keeps its attachment and leaves the map.
  pub finish-complete :
      (ch : Channel Response) (p : PendingRequest Response) (rpc_id : ℕ)
      → p.timed_out ≡ false
      → p.transport_error ≡ 0
      → p.error_code ≡ err_success
      → finish_call rpc_id (end_wait rpc_id (complete rpc_id p ch))
        ≡ some (succeeded p.response, finished rpc_id p ch)
  unfolding finish_call end_wait
  finish-complete ch p rpc_id on_time no_error success =
      let there = found ch (record p { done = true }) rpc_id in
      ap (λ m. finish_call rpc_id (mark_timed_out rpc_id m (complete rpc_id p ch))) there
      ∙ ap (λ m. finish rpc_id m (complete rpc_id p ch)) there
      ∙ ap
          (λ o. some (
            o,
            erase_pending rpc_id
                (keep_attachment o (record p { done = true }) (complete rpc_id p ch)),
          ))
          (outcome_lem (record p { done = true }) on_time no_error success)
