-- ===== src/Rpc/Server/Answers.antt =====
-- How a request is answered.
use light_rpc.Prelude.{
  ℕ, ◌≡◌, refl, sym, ap, ◌∙◌, subst, inl, inr, Bool, true, false, ◌||◌, List, [], Option, none,
  some, ◌>>=◌, ltb, if◌then◌else◌, if_true, if_false, Bool-cases, take, drop,
}
use light_rpc.Prelude.Bits.{add32, sub32}
use light_rpc.Rpc.{
  err_success, err_unknown_service, err_unknown_method, err_bad_request, read32, error_frame,
}
use light_rpc.Rpc.Large.{Conn, Env, start_write}
use light_rpc.Rpc.Service.{MetaDataOfRequest, Protobuf, ServiceInfo, find_service}
use light_rpc.Rpc.Server.{
  CallBackArgs, Handled, only, send_error_response, dispatch, with_method, with_service, with_meta,
  on_normal,
}

module _ {S M R : Type 0} (proto : Protobuf S M R) (env : Env)
    (services : List (List ℕ × ServiceInfo S)) (rpc_id : ℕ) (c : Conn) where
  -- Where the message ends before the metadata and the attachment do.
  abbrev pub is_short : ℕ → ℕ → MetaDataOfRequest → Bool
  is_short total n named =
      ltb total (add32 16 n) || ltb (sub32 total (add32 16 n)) named.attachment_size

  abbrev pub payload_size : ℕ → ℕ → MetaDataOfRequest → ℕ
  payload_size total n named = sub32 (sub32 total (add32 16 n)) named.attachment_size

  -- The service that is called is the one of that name, with its method, the request that is read of the
  -- payload, and what follows it as the attachment.
  pub record IsNamed (total n : ℕ) (frame : List ℕ) (named : MetaDataOfRequest)
      (a : CallBackArgs S M R) : Type 0 where
    pub info : ServiceInfo S
    pub whole : is_short total n named ≡ false
    pub registered : find_service named.service_name services ≡ some info
    pub service : a.service ≡ info.service
    pub method : proto.find_method info.service named.method_name ≡ some a.method
    pub request :
        proto.parse_request a.method (take (payload_size total n named) frame) ≡ some a.request
    pub attachment :
        a.request_attachment
        ≡ (if ltb 0 named.attachment_size then drop (payload_size total n named) frame else [])
    pub id : a.rpc_id ≡ rpc_id
    pub no_error : a.error_code ≡ err_success

  -- Why a request is refused, and with which code.
  pub data IsRefusal (total n : ℕ) (frame : List ℕ) (named : MetaDataOfRequest) : ℕ → Type 0 where
    short : is_short total n named ≡ true → IsRefusal total n frame named err_bad_request
    no_service :
        is_short total n named ≡ false
        → find_service named.service_name services ≡ none
        → IsRefusal total n frame named err_unknown_service
    no_method :
        (info : ServiceInfo S)
        → is_short total n named ≡ false
        → find_service named.service_name services ≡ some info
        → proto.find_method info.service named.method_name ≡ none
        → IsRefusal total n frame named err_unknown_method
    no_request :
        (info : ServiceInfo S) (method : M)
        → is_short total n named ≡ false
        → find_service named.service_name services ≡ some info
        → proto.find_method info.service named.method_name ≡ some method
        → proto.parse_request method (take (payload_size total n named) frame) ≡ none
        → IsRefusal total n frame named err_bad_request

  -- The service is called and nothing is written; or one error response is sent and no service is
  -- called; or the metadata cannot be read, and nothing happens. `frame` is what follows the metadata.
  pub data Answers (total n : ℕ) (frame : List ℕ) (meta : Option MetaDataOfRequest)
      : Handled S M R → Type 0 where
    calls :
        (named : MetaDataOfRequest) (a : CallBackArgs S M R)
        → meta ≡ some named
        → IsNamed total n frame named a
        → Answers total n frame meta (record { returned = true; conn = c; dispatched = some a })
    refuses :
        (named : MetaDataOfRequest) (code : ℕ)
        → meta ≡ some named
        → IsRefusal total n frame named code
        → Answers total n frame meta (only (false, (start_write env (error_frame rpc_id code) c).1))
    drops : meta ≡ none → Answers total n frame meta (only (false, c))

  module _ (total n : ℕ) (frame : List ℕ) (named : MetaDataOfRequest)
      (whole : is_short total n named ≡ false) where
    dispatch-Answers :
        (o : Option R) (info : ServiceInfo S) (method : M)
        → find_service named.service_name services ≡ some info
        → proto.find_method info.service named.method_name ≡ some method
        → proto.parse_request method (take (payload_size total n named) frame) ≡ o
        → Answers total n frame (some named) (
            dispatch proto env o info.service method rpc_id
              (if ltb 0 named.attachment_size then drop (payload_size total n named) frame else [])
              c)
    unfolding send_error_response
    dispatch-Answers none info method e f g =
        refuses named err_bad_request refl (no_request info method whole e f g)
    dispatch-Answers (some r) info method e f g = calls named _ refl (record {
      info = info;
      whole = whole;
      registered = e;
      service = refl;
      method = f;
      request = g;
      attachment = refl;
      id = refl;
      no_error = refl;
    })

    method-Answers :
        (o : Option M) (info : ServiceInfo S)
        → find_service named.service_name services ≡ some info
        → proto.find_method info.service named.method_name ≡ o
        → Answers total n frame (some named) (
            with_method proto env o info.service rpc_id
              (payload_size total n named)
              named.attachment_size
              frame
              c)
    unfolding send_error_response
    method-Answers none info e f = refuses named err_unknown_method refl (no_method info whole e f)
    method-Answers (some m) info e f = dispatch-Answers _ info m e f refl

    service-Answers :
        (o : Option (ServiceInfo S))
        → find_service named.service_name services ≡ o
        → Answers total n frame (some named) (
            with_service proto env o named.method_name rpc_id
              (payload_size total n named)
              named.attachment_size
              frame
              c)
    unfolding send_error_response
    service-Answers none e = refuses named err_unknown_service refl (no_service whole e)
    service-Answers (some info) e = method-Answers _ info e refl

  meta-Answers :
      (o : Option MetaDataOfRequest) (total n : ℕ) (frame : List ℕ)
      → Answers total n frame o (with_meta proto env services o total rpc_id n frame c)
  unfolding send_error_response
  meta-Answers none total n frame = drops refl
  meta-Answers (some named) total n frame = elim (Bool-cases (is_short total n named)) [
    | inl e ↦
        subst (Answers total n frame (some named)) (sym (if_true _ _ e))
          (refuses named err_bad_request refl (short e))
    | inr e ↦
        subst (Answers total n frame (some named)) (sym (if_false _ _ e))
          (service-Answers total n frame named e _ refl)
  ]

  -- What `OnProcessRequest` does with a request of which `meta_len` and the rest are read: it calls the
  -- service that is registered under the name in the metadata, with its method, the request that is
  -- read of the payload and the attachment, returns 0 and writes nothing; or returns -1 after one
  -- error response of this call's id: a bad request where the lengths do not fit or the request cannot
  -- be read, an unknown service where none is registered, an unknown method where the service has
  -- none; or, where the metadata cannot be read and only then, returns -1 and writes nothing.
  pub on_normal-Answers :
      (total meta_len : ℕ) (frame rest : List ℕ) (h : Handled S M R)
      → read32 frame ≡ some (meta_len, rest)
      → on_normal proto env services total rpc_id frame c ≡ some h
      → Answers total meta_len (drop meta_len rest) (proto.parse_meta (take meta_len rest)) h
  unfolding on_normal
  on_normal-Answers total n frame rest h word e =
      subst (Answers total n (drop n rest) (proto.parse_meta (take n rest)))
        (same (sym (ap (λ o. o >>= handle) word) ∙ e))
        (meta-Answers (proto.parse_meta (take n rest)) total n (drop n rest))
    where
      handle : ℕ × List ℕ → Option (Handled S M R)
      handle w = some (
          with_meta proto env services (proto.parse_meta (take w.0 w.1)) total rpc_id w.0
            (drop w.0 w.1) c)

      same : {x y : Handled S M R} → some x ≡ some y → x ≡ y
      same e = cc
