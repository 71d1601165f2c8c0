-- ===== src/Rpc/Server/Requests.antt =====
-- A request that a channel framed, at the server.
use light_rpc.Prelude.{
  ℕ, ◌+◌, ◌^◌, ◌<◌, ◌≡◌, refl, ap, ◌∙◌, true, false, List, ◌++◌, some, ltb, length, arith,
}
use light_rpc.Prelude.Bits.{add32, sub32}
use light_rpc.Hello.{htonl}
use light_rpc.Hello.Codec.{take_exact, drop_exact}
use light_rpc.Rpc.{msg_normal, err_success, request_len, request_frame}
use light_rpc.Rpc.Words.{bind-htonl, attached}
use light_rpc.Rpc.Large.{Conn, Env}
use light_rpc.Rpc.Service.{MetaDataOfRequest, Protobuf, ServiceInfo, find_service}
use light_rpc.Rpc.Server.{Handled, with_meta, on_normal, on_process_request}
use light_rpc.Rpc.Server.Faults.{on_process_request_alive}

pub request_len_lem :
    (meta payload attachment : List ℕ)
    → 16 + length meta + length payload + length attachment < 2 ^ 32
    → request_len meta payload attachment ≡ 16 + length meta + length payload + length attachment
unfolding request_len
request_len_lem meta payload attachment h = omega arith

abbrev pub dispatched_as : {S M R : Type 0} → ℕ → S → M → R → List ℕ → Conn → Handled S M R
dispatched_as rpc_id service method request attachment c = record {
  returned = true;
  conn = c;
  dispatched = some (record {
    rpc_id = rpc_id;
    error_code = err_success;
    service = service;
    method = method;
    request = request;
    request_attachment = attachment;
  });
}

module _ {S M R : Type 0} (proto : Protobuf S M R) (env : Env) where
  -- A request whose parts are known: which service, method and message its bytes stand for.
  pub record Request (services : List (List ℕ × ServiceInfo S)) (meta payload attachment : List ℕ)
      (info : ServiceInfo S) (method : M) (request : R) : Type 0 where
    pub named : MetaDataOfRequest
    pub parsed : proto.parse_meta meta ≡ some named
    pub sized : named.attachment_size ≡ length attachment
    pub service : find_service named.service_name services ≡ some info
    pub known : proto.find_method info.service named.method_name ≡ some method
    pub body : proto.parse_request method payload ≡ some request

  known :
      (services : List (List ℕ × ServiceInfo S)) (payload attachment : List ℕ)
      (info : ServiceInfo S) (method : M) (request : R) (rpc_id : ℕ) (c : Conn)
      (named : MetaDataOfRequest) (total meta_len : ℕ)
      → named.attachment_size ≡ length attachment
      → find_service named.service_name services ≡ some info
      → proto.find_method info.service named.method_name ≡ some method
      → proto.parse_request method payload ≡ some request
      → 16 + meta_len + length payload + length attachment < 2 ^ 32
      → total ≡ 16 + meta_len + length payload + length attachment
      → with_meta proto env services (some named) total rpc_id meta_len (payload ++ attachment) c
        ≡ dispatched_as rpc_id info.service method request attachment c
  known services payload attachment info method request rpc_id c named total meta_len sized service
        method_known body fits e =
      let within : ltb total (add32 16 meta_len) ≡ false = grind arith in
      let left : sub32 total (add32 16 meta_len) ≡ length payload + length attachment =
        omega arith in
      let room : ltb (length payload + length attachment) (length attachment) ≡ false =
        ground arith in
      let size : sub32 (length payload + length attachment) (length attachment) ≡ length payload =
        omega arith in
      rw
        (
          left,
          sized,
          within,
          room,
          size,
          service,
          method_known,
          take_exact (length payload) payload attachment refl,
          drop_exact (length payload) payload attachment refl,
          body,
          attached attachment,
        )
        refl

  -- The request frame of a channel is dispatched, with the service, the method, the request and the
  -- attachment that it was made of, and nothing is written.
  pub on_process_request-request_frame :
      (services : List (List ℕ × ServiceInfo S)) (rpc_id : ℕ) (meta payload attachment : List ℕ)
      (info : ServiceInfo S) (method : M) (request : R) (c : Conn)
      → Request services meta payload attachment info method request
      → 16 + length meta + length payload + length attachment < 2 ^ 32
      → rpc_id < 2 ^ 32
      → c.failed ≡ false
      → on_process_request proto env
          (some services)
          c
          (request_frame rpc_id meta payload attachment)
        ≡ some (dispatched_as rpc_id info.service method request attachment c)
  unfolding request_frame on_normal
  on_process_request-request_frame services rpc_id meta payload attachment info method request c q
        fits id alive =
      let total = request_len_lem meta payload attachment fits in
      let after_meta = meta ++ (payload ++ attachment) in
      let after_id = htonl (length meta) ++ after_meta in
      let after_type = htonl rpc_id ++ after_id in
      on_process_request_alive proto env services c _ alive
      ∙ bind-htonl (request_len meta payload attachment) (htonl msg_normal ++ after_type) _
          (omega (arith, total))
      ∙ bind-htonl msg_normal after_type _ (omega arith)
      ∙ bind-htonl rpc_id after_id _ id
      ∙ bind-htonl (length meta) after_meta _ (omega arith)
      ∙ ap some (
          rw
            (
              take_exact (length meta) meta (payload ++ attachment) refl,
              drop_exact (length meta) meta (payload ++ attachment) refl,
              q.parsed,
            )
            (known services payload attachment info method request rpc_id c q.named
              (request_len meta payload attachment) (length meta) q.sized q.service q.known q.body
              fits total))
