-- ===== src/Rpc/Pending.antt =====
-- The channel of a client: its calls in flight, how they are registered, failed and finished
-- (src-endpoint/fast_channel.cc, inc/fast_channel.h). A call waits between `register_pending` and
-- `end_wait`; other threads move the channel meanwhile.
use light_rpc.Prelude.{
  ℕ, Bool, true, false, not, List, [], ◌∷◌, Option, none, some, ◌==◌, if◌then◌else◌, find, erase,
  insert,
}
use light_rpc.Rpc.{
  err_success, err_unknown_service, err_unknown_method, err_bad_request, err_bad_response,
  err_internal,
}
use light_rpc.Rpc.Large.{Conn}

pub record PendingRequest (Response : Type 0) : Type 0 where
  pub response : Option Response
  pub done : Bool
  pub transport_error : ℕ
  pub timed_out : Bool
  pub error_code : ℕ
  pub attachment : List ℕ

pub record Channel (Response : Type 0) : Type 0 where
  pub conn : Conn
  pub closed : Bool
  pub rpc_id : ℕ
  pub request_attachment : List ℕ
  pub response_attachment : List ℕ
  pub connection_error : ℕ
  pub pending_map : List (ℕ × PendingRequest Response)

-- What SetFailed of the controller says.
pub data Failure : Type 0 where
  channel_closed connection_failed start_write_failed rpc_timeout : Failure
  transport : ℕ → Failure
  unknown_service unknown_method bad_request bad_response internal_error unknown_error : Failure

pub data Outcome (Response : Type 0) : Type 0 where
  failed : Failure → Outcome Response
  succeeded : Option Response → Outcome Response

abbrev pub server_failure : ℕ → Failure
server_failure code =
    if code == err_unknown_service
    then unknown_service
    else if code == err_unknown_method
    then unknown_method
    else if code == err_bad_request
    then bad_request
    else if code == err_bad_response
    then bad_response
    else if code == err_internal
    then internal_error
    else unknown_error

abbrev pub new_pending : {Response : Type 0} → PendingRequest Response
new_pending = record {
  response = none;
  done = false;
  transport_error = 0;
  timed_out = false;
  error_code = 0;
  attachment = [];
}

abbrev pub eio : ℕ
eio = 5

module _ {Response : Type 0} where
  abbrev pub fail_pending : ℕ → PendingRequest Response → PendingRequest Response
  fail_pending error p = if p.done then p else record p { transport_error = error; done = true }

  unfoldable pub fail_all :
      ℕ → List (ℕ × PendingRequest Response) → List (ℕ × PendingRequest Response)
  fail_all error [] = []
  fail_all error ((k, p) ∷ m) = (k, fail_pending error p) ∷ fail_all error m

  unfoldable pub on_endpoint_failed : ℕ → Channel Response → Channel Response
  unfolding fail_all
  on_endpoint_failed error ch =
      let first = if ch.connection_error == 0 then error else ch.connection_error in
      record ch {
        closed = true;
        connection_error = first;
        pending_map = fail_all first ch.pending_map;
      }

  -- `SetFailed` of the endpoint, whose failure handler runs once.
  unfoldable pub set_failed : ℕ → Channel Response → Channel Response
  unfolding on_endpoint_failed
  set_failed error ch =
      if ch.conn.failed
      then ch
      else on_endpoint_failed (if error == 0 then eio else error)
          (record ch { conn = record ch.conn { failed = true } })

  -- The error where the registration is refused.
  unfoldable pub register_pending : ℕ → Channel Response → Option ℕ × Channel Response
  register_pending rpc_id ch =
      if ch.connection_error == 0
      then (none, record ch { pending_map = insert rpc_id new_pending ch.pending_map })
      else (some ch.connection_error, ch)

  abbrev pub erase_pending : ℕ → Channel Response → Channel Response
  erase_pending rpc_id ch = record ch { pending_map = erase rpc_id ch.pending_map }

  -- The wait ends because the call is done, or after a minute.
  abbrev pub mark_timed_out :
      ℕ → Option (PendingRequest Response) → Channel Response → Channel Response
  mark_timed_out rpc_id none ch = ch
  mark_timed_out rpc_id (some p) ch = if p.done then ch else record ch {
    pending_map = insert rpc_id (record p { timed_out = true; done = true }) ch.pending_map;
  }

  unfoldable pub end_wait : ℕ → Channel Response → Channel Response
  end_wait rpc_id ch = mark_timed_out rpc_id (find rpc_id ch.pending_map) ch

  abbrev pub outcome : PendingRequest Response → Outcome Response
  outcome p =
      if p.timed_out
      then failed rpc_timeout
      else if not (p.transport_error == 0)
      then failed (transport p.transport_error)
      else if not (p.error_code == err_success)
      then failed (server_failure p.error_code)
      else succeeded p.response

  abbrev pub keep_attachment :
      Outcome Response → PendingRequest Response → Channel Response → Channel Response
  keep_attachment (failed e) p ch = ch
  keep_attachment (succeeded r) p ch = record ch { response_attachment = p.attachment }

  abbrev pub finish :
      ℕ
      → Option (PendingRequest Response)
      → Channel Response
      → Option (Outcome Response × Channel Response)
  finish rpc_id none ch = none
  finish rpc_id (some p) ch =
      some (outcome p, erase_pending rpc_id (keep_attachment (outcome p) p ch))

  -- `none` where a call 2 ^ 32 calls later took the entry over.
  unfoldable pub finish_call : ℕ → Channel Response → Option (Outcome Response × Channel Response)
  finish_call rpc_id ch = finish rpc_id (find rpc_id ch.pending_map) ch
