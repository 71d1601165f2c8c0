-- ===== src/Rpc/Server.antt =====
-- The handler of requests and the reply of a service (src-endpoint/fast_server.cc). The service is
-- outside: what it is called with is a value, and its reply is the argument of `return_rpc_response`.
pub mod Faults
pub mod Requests
pub mod Answers
pub mod Replies
use light_rpc.Prelude.{
  ℕ, ◌+◌, ◌*◌, ◌^◌, Bool, true, false, ◌||◌, List, [], ◌∷◌, ◌++◌, Option, none, some, ◌>>=◌, ltb,
  leb, ◌==◌, if◌then◌else◌, take, drop, length,
}
use light_rpc.Prelude.Bits.{add32, sub32}
use light_rpc.Rpc.{
  msg_notify, msg_authority, msg_threshold, err_success, err_unknown_service, err_unknown_method,
  err_bad_request, read32, notify_frame, response_len, response_frame, error_frame,
}
use light_rpc.Rpc.Large.{
  Segment, Conn, Env, can_start_large_transfer, start_large_transfer, store_large_frame,
  start_write, on_notify, on_authority,
}
use light_rpc.Rpc.Service.{MetaDataOfRequest, Protobuf, ServiceInfo, find_service}

-- What a service is called with. The error code starts at ERR_SUCCESS.
pub record CallBackArgs (Service Method Request : Type 0) : Type 0 where
  pub rpc_id : ℕ
  pub error_code : ℕ
  pub service : Service
  pub method : Method
  pub request : Request
  pub request_attachment : List ℕ

-- `returned` is `true` for 0 and `false` for -1.
pub record Handled (Service Method Request : Type 0) : Type 0 where
  pub returned : Bool
  pub conn : Conn
  pub dispatched : Option (CallBackArgs Service Method Request)

abbrev pub only : {S M R : Type 0} → Bool × Conn → Handled S M R
only (r, c) = record { returned = r; conn = c; dispatched = none }

module _ {S M R : Type 0} (proto : Protobuf S M R) (env : Env) where
  unfoldable pub send_error_response : ℕ → ℕ → Conn → Handled S M R
  unfolding start_write error_frame
  send_error_response rpc_id error_code c =
      only (false, (start_write env (error_frame rpc_id error_code) c).1)

  abbrev pub dispatch : Option R → S → M → ℕ → List ℕ → Conn → Handled S M R
  dispatch none service method rpc_id attachment c = send_error_response rpc_id err_bad_request c
  dispatch (some request) service method rpc_id attachment c = record {
    returned = true;
    conn = c;
    dispatched = some (record {
      rpc_id = rpc_id;
      error_code = err_success;
      service = service;
      method = method;
      request = request;
      request_attachment = attachment;
    });
  }

  abbrev pub with_method : Option M → S → ℕ → ℕ → ℕ → List ℕ → Conn → Handled S M R
  with_method none service rpc_id payload_len attachment_size frame c =
      send_error_response rpc_id err_unknown_method c
  with_method (some method) service rpc_id payload_len attachment_size frame c =
      let rest = drop payload_len frame in
      dispatch (proto.parse_request method (take payload_len frame)) service method rpc_id
        (if ltb 0 attachment_size then rest else []) c

  abbrev pub with_service :
      Option (ServiceInfo S) → List ℕ → ℕ → ℕ → ℕ → List ℕ → Conn → Handled S M R
  with_service none name rpc_id payload_len attachment_size frame c =
      send_error_response rpc_id err_unknown_service c
  with_service (some info) name rpc_id payload_len attachment_size frame c =
      with_method (proto.find_method info.service name) info.service rpc_id payload_len
        attachment_size frame c

  -- From the metadata on, with what follows it in the frame.
  abbrev pub with_meta :
      List (List ℕ × ServiceInfo S)
      → Option MetaDataOfRequest
      → ℕ
      → ℕ
      → ℕ
      → List ℕ
      → Conn
      → Handled S M R
  with_meta services none total_len rpc_id meta_len frame c = only (false, c)
  with_meta services (some meta) total_len rpc_id meta_len frame c =
      let header_size = add32 16 meta_len in
      let payload_len = sub32 (sub32 total_len header_size) meta.attachment_size in
      if ltb total_len header_size || ltb (sub32 total_len header_size) meta.attachment_size
      then send_error_response rpc_id err_bad_request c
      else with_service (find_service meta.service_name services) meta.method_name rpc_id
          payload_len meta.attachment_size frame c

  unfoldable pub on_normal :
      List (List ℕ × ServiceInfo S) → ℕ → ℕ → List ℕ → Conn → Option (Handled S M R)
  unfolding send_error_response
  on_normal services total_len rpc_id frame c = do
    word ← read32 frame
    some (
        with_meta services (proto.parse_meta (take word.0 word.1)) total_len rpc_id word.0
          (drop word.0 word.1) c)

  abbrev pub read_notify : ℕ → List ℕ → Conn → Option (Handled S M R)
  read_notify rpc_id frame c = do word ← read32 frame; some (only (on_notify env rpc_id word.0 c))

  abbrev pub read_authority : ℕ → List ℕ → Conn → Option (Handled S M R)
  read_authority rpc_id frame c = do
    rkey ← read32 frame
    hi ← read32 rkey.1
    lo ← read32 hi.1
    some (only (on_authority env rpc_id rkey.0 (hi.0 * 2 ^ 32 + lo.0) c))

  abbrev pub by_type :
      List (List ℕ × ServiceInfo S) → ℕ → ℕ → ℕ → List ℕ → Conn → Option (Handled S M R)
  by_type services total_len msg_type rpc_id frame c =
      if msg_type == msg_notify
      then read_notify rpc_id frame c
      else if msg_type == msg_authority
      then read_authority rpc_id frame c
      else on_normal services total_len rpc_id frame c

  abbrev pub read_header : List (List ℕ × ServiceInfo S) → List ℕ → Conn → Option (Handled S M R)
  read_header services frame c = do
    total_len ← read32 frame
    msg_type ← read32 total_len.1
    rpc_id ← read32 msg_type.1
    by_type services total_len.0 msg_type.0 rpc_id.0 rpc_id.1 c

  -- `server` is the endpoint's owner, by its map of services.
  unfoldable pub on_process_request :
      Option (List (List ℕ × ServiceInfo S)) → Conn → List ℕ → Option (Handled S M R)
  unfolding on_normal
  on_process_request none c frame = some (only (false, c))
  on_process_request (some services) c frame =
      let handled = read_header services frame c in
      if c.failed then some (only (false, c)) else handled

-- At each wake-up the connection and whether the server is closed; `none` where it waits on.
unfoldable pub wait_for_large_writable : List (Bool × Conn) → Option (Bool × Conn)
unfolding can_start_large_transfer start_large_transfer
wait_for_large_writable [] = none
wait_for_large_writable ((closed, c) ∷ wakes) =
    let rest = wait_for_large_writable wakes in
    if closed || c.failed
    then some (false, c)
    else if can_start_large_transfer c
    then some (true, start_large_transfer c)
    else rest

module _ (env : Env) where
  abbrev pub notify : ℕ → ℕ → Option (Bool × Conn) → Option Conn
  notify rpc_id total_len none = none
  notify rpc_id total_len (some (false, c)) = some c
  notify rpc_id total_len (some (true, c)) =
      some (start_write env (notify_frame rpc_id total_len) c).1

  -- `payload` has the bytes of the response, none where there is no response. `segments` are the
  -- references of the buffer that holds the frame, `wakes` what happens to the connection after
  -- the frame is stored.
  unfoldable pub return_rpc_response :
      (List ℕ → List Segment)
      → (Conn → List (Bool × Conn))
      → ℕ
      → ℕ
      → List ℕ
      → List ℕ
      → Conn
      → Option Conn
  unfolding wait_for_large_writable store_large_frame
  return_rpc_response segments wakes rpc_id error_code payload attachment c =
      let total_len = response_len payload attachment in
      let frame = response_frame rpc_id error_code payload attachment in
      let large =
        notify rpc_id total_len
          (wait_for_large_writable (wakes (store_large_frame rpc_id (segments frame) c))) in
      if c.failed
      then some c
      else if leb msg_threshold total_len
      then large
      else some (start_write env frame c).1
