-- ===== src/Rpc/Exchange.antt =====
-- A call from one end to the other: CallMethod, OnProcessRequest, ReturnRPCResponse,
-- OnProcessResponse (src-endpoint/fast_channel.cc, src-endpoint/fast_server.cc).
use light_rpc.Prelude.{
  ℕ, ◌+◌, ◌%◌, ◌^◌, ◌<◌, ◌≡◌, refl, ◌∙◌, Bool, true, false, List, [], ◌∷◌, ◌++◌, Option, none, some,
  length, find, find-insert, find-erase, if_true, ◌==◌, arith,
}
use light_rpc.Dispatcher.Frames.{frame, next_frame}
use light_rpc.Rpc.{msg_threshold, err_success, request_frame, response_frame}
use light_rpc.Rpc.Large.{Segment, Conn, Env}
use light_rpc.Rpc.Service.{Protobuf, ServiceInfo, find_service}
use light_rpc.Rpc.Server.{on_process_request, return_rpc_response}
use light_rpc.Rpc.Server.Requests.{dispatched_as, request_len_lem, on_process_request-request_frame}
use light_rpc.Rpc.Server.Replies.{response_len_lem, return_rpc_response_small}
use light_rpc.Rpc.Pending.{PendingRequest, Channel, succeeded, new_pending, end_wait, finish_call}
use light_rpc.Rpc.Channel.{waits, begin_call, complete, on_process_response}
use light_rpc.Rpc.Channel.Calls.{called, begin_call_small, finished, finish-complete}
use light_rpc.Rpc.Channel.Responses.{on_process_response-response_frame}
use light_rpc.Rpc.Framing.{next_frame-request_frame, next_frame-response_frame}

-- The bytes of a message and what it parses to.
pub record Call (S M R Response : Type 0) : Type 0 where
  pub meta : ℕ → ℕ → List ℕ
  pub payload : List ℕ
  pub service_name : List ℕ
  pub method_name : List ℕ
  pub info : ServiceInfo S
  pub method : M
  pub request : R
  pub reply : List ℕ
  pub reply_attachment : List ℕ
  pub response : Response

module _ {S M R Response : Type 0} (proto : Protobuf S M R)
    (parse_response : List ℕ → Option Response) where
  -- What protobuf reads back is what it wrote, and the server has the service and its method.
  pub record IsServed (services : List (List ℕ × ServiceInfo S)) (call : Call S M R Response)
      : Type 0 where
    pub meta_read :
        (rpc_id size : ℕ)
        → proto.parse_meta (call.meta rpc_id size)
          ≡ some (record {
            rpc_id = rpc_id;
            service_name = call.service_name;
            method_name = call.method_name;
            attachment_size = size;
          })
    pub service : find_service call.service_name services ≡ some call.info
    pub known : proto.find_method call.info.service call.method_name ≡ some call.method
    pub request_read : proto.parse_request call.method call.payload ≡ some call.request
    pub response_read : parse_response call.reply ≡ some call.response

  module _ (client server : Env) (segments : List ℕ → List Segment) (call : Call S M R Response)
      (services : List (List ℕ × ServiceInfo S)) (ch : Channel Response) where
    abbrev pub meta_bytes : List ℕ
    meta_bytes = call.meta ch.rpc_id (length ch.request_attachment % 2 ^ 32)

    abbrev pub sent : List ℕ
    sent = request_frame ch.rpc_id meta_bytes call.payload ch.request_attachment

    abbrev pub replied : List ℕ
    replied = response_frame ch.rpc_id err_success call.reply call.reply_attachment

    -- Each side works, and both messages are below the threshold of large ones.
    pub record IsOpen (c : Conn) : Type 0 where
      pub works : ch.connection_error ≡ 0
      pub client_alive : ch.conn.failed ≡ false
      pub server_alive : c.failed ≡ false
      pub client_accepts : client.accepts sent ≡ true
      pub server_accepts : server.accepts replied ≡ true
      pub id : ch.rpc_id < 2 ^ 32
      pub request_small :
          16 + length meta_bytes + length call.payload + length ch.request_attachment
          < msg_threshold
      pub response_small : 20 + length call.reply + length call.reply_attachment < msg_threshold

    -- `mid` is the channel where the response comes in.
    pub record Answered (c : Conn) (mid : Channel Response) : Type 0 where
      pub begun :
          (wakes : Channel Response → List (Channel Response)) (errno : ℕ)
          → begin_call client segments true wakes call.meta call.payload errno ch
            ≡ waits ch.rpc_id (called ch.rpc_id sent ch)
      pub registered : find ch.rpc_id (called ch.rpc_id sent ch).pending_map ≡ some new_pending
      pub request_cut : (rest : List ℕ) → next_frame (sent ++ rest) ≡ frame sent rest
      pub dispatched :
          on_process_request proto server (some services) c sent
          ≡ some (
              dispatched_as ch.rpc_id call.info.service call.method call.request
                ch.request_attachment c)
      pub returned :
          (wakes : Conn → List (Bool × Conn))
          → return_rpc_response server segments wakes ch.rpc_id err_success call.reply
              call.reply_attachment c
            ≡ some (record c { written = c.written ++ (replied ∷ []) })
      pub response_cut : (rest : List ℕ) → next_frame (replied ++ rest) ≡ frame replied rest
      pub completed :
          (q : PendingRequest Response) × (on_process_response client parse_response replied mid
            ≡ some (true, complete ch.rpc_id q mid))
          × (finish_call ch.rpc_id (end_wait ch.rpc_id (complete ch.rpc_id q mid))
              ≡ some (succeeded (some call.response), finished ch.rpc_id q mid))
          × ((finished ch.rpc_id q mid).response_attachment ≡ call.reply_attachment)
          × (find ch.rpc_id (finished ch.rpc_id q mid).pending_map ≡ none)

    abbrev answer_of : PendingRequest Response
    answer_of = record new_pending {
      response = some call.response;
      attachment = call.reply_attachment;
    }

    -- A call whose request and response are each below 2 MB, on an open channel and a server that has the
    -- service and its method, where protobuf reads back what it wrote: CallMethod registers the call and
    -- queues one frame, which the receiver cuts out whole whatever follows it; OnProcessRequest calls
    -- the service's method with the request and the attachment; ReturnRPCResponse queues one frame, cut out
    -- whole too; and in any later state of the channel where the call still waits, OnProcessResponse and
    -- the end of CallMethod give the service's response and its attachment, and the call leaves the map.
    pub call_lem :
        (c : Conn) (mid : Channel Response)
        → IsServed services call
        → IsOpen c
        → find ch.rpc_id mid.pending_map ≡ some new_pending
        → Answered c mid
    call_lem c mid served open_ waiting =
        let small : length ch.request_attachment % 2 ^ 32 ≡ length ch.request_attachment =
          omega (arith, open_.request_small) in
        let fits : 16 + length meta_bytes + length call.payload + length ch.request_attachment
            < 2 ^ 32 =
          omega (arith, open_.request_small) in
        let fits2 : 20 + length call.reply + length call.reply_attachment < 2 ^ 32 =
          omega (arith, open_.response_small) in
        let same : (ch.rpc_id == ch.rpc_id) ≡ true = ground arith in
        record {
          begun = λ wakes errno.
              begin_call_small client segments wakes call.meta call.payload errno ch open_.works
                open_.client_alive open_.client_accepts
                (omega (
                  arith,
                  open_.request_small,
                  request_len_lem meta_bytes call.payload ch.request_attachment fits,
                ));
          registered =
              find-insert ch.rpc_id ch.rpc_id new_pending ch.pending_map ∙ if_true _ _ same;
          request_cut = λ rest.
              next_frame-request_frame ch.rpc_id meta_bytes call.payload ch.request_attachment rest
                fits;
          dispatched =
              on_process_request-request_frame proto server services ch.rpc_id meta_bytes
                call.payload ch.request_attachment call.info call.method call.request c
                (record {
                  named = record {
                    rpc_id = ch.rpc_id;
                    service_name = call.service_name;
                    method_name = call.method_name;
                    attachment_size = length ch.request_attachment % 2 ^ 32;
                  };
                  parsed = served.meta_read ch.rpc_id (length ch.request_attachment % 2 ^ 32);
                  sized = small;
                  service = served.service;
                  known = served.known;
                  body = served.request_read;
                })
                fits open_.id open_.server_alive;
          returned = λ wakes.
              return_rpc_response_small server segments wakes ch.rpc_id err_success call.reply
                call.reply_attachment c open_.server_alive open_.server_accepts
                (omega (
                  arith,
                  open_.response_small,
                  response_len_lem call.reply call.reply_attachment fits2,
                ));
          response_cut = λ rest.
              next_frame-response_frame ch.rpc_id err_success call.reply call.reply_attachment rest
                fits2;
          completed = (
            answer_of,
            on_process_response-response_frame client parse_response mid new_pending call.response
                ch.rpc_id call.reply call.reply_attachment waiting refl served.response_read fits2
                open_.id,
            finish-complete mid answer_of ch.rpc_id refl refl refl,
            refl,
            find-erase ch.rpc_id ch.rpc_id _ ∙ if_true _ _ same,
          );
        }
