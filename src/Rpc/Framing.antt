-- ===== src/Rpc/Framing.antt =====
-- The frames written, as the receiver cuts them out of what it has read.
use light_rpc.Prelude.{
  ℕ, ◌+◌, ◌^◌, ◌≤◌, ◌<◌, ◌≡◌, refl, ◌∙◌, ap₂, false, List, ◌++◌, ltb, if_false, length,
  length-append, arith,
}
use light_rpc.Hello.{htonl}
use light_rpc.Hello.Codec.{take_exact, drop_exact}
use light_rpc.Dispatcher.{frame_header_bytes, ntohl}
use light_rpc.Dispatcher.Frames.{frame, next_frame}
use light_rpc.Rpc.{
  request_len, request_frame, notify_frame, auth_frame, response_len, response_frame, error_frame,
}

ntohl-htonl : (v : ℕ) (rest : List ℕ) → v < 2 ^ 32 → ntohl (htonl v ++ rest) ≡ v
unfolding ntohl
ntohl-htonl v rest h = omega arith

-- A frame that begins with its own length is cut out whole.
pub next_frame_exact :
    (f rest : List ℕ)
    → ntohl (f ++ rest) ≡ length f
    → 12 ≤ length f
    → next_frame (f ++ rest) ≡ frame f rest
unfolding next_frame
next_frame_exact f rest e h =
    let both = length-append f rest in
    let four : ltb (length (f ++ rest)) 4 ≡ false = ground (arith, both) in
    let header : ltb (ntohl (f ++ rest)) frame_header_bytes ≡ false = ground (arith, e) in
    let whole : ltb (length (f ++ rest)) (ntohl (f ++ rest)) ≡ false = ground (arith, e, both) in
    if_false _ _ four
    ∙ if_false _ _ header
    ∙ if_false _ _ whole
    ∙ rw e (ap₂ frame (take_exact (length f) f rest refl) (drop_exact (length f) f rest refl))

pub length-response_frame :
    (rpc_id code : ℕ) (payload attachment : List ℕ)
    → length (response_frame rpc_id code payload attachment)
      ≡ 20 + length payload + length attachment
unfolding response_frame
length-response_frame rpc_id code payload attachment =
    omega (arith, length-append payload attachment)

pub next_frame-response_frame :
    (rpc_id code : ℕ) (payload attachment rest : List ℕ)
    → 20 + length payload + length attachment < 2 ^ 32
    → next_frame (response_frame rpc_id code payload attachment ++ rest)
      ≡ frame (response_frame rpc_id code payload attachment) rest
unfolding response_frame response_len
next_frame-response_frame rpc_id code payload attachment rest h =
    let n = length-append payload attachment in
    next_frame_exact (response_frame rpc_id code payload attachment) rest
      (ntohl-htonl (response_len payload attachment) _ (omega arith) ∙ omega (arith, n))
      (omega arith)

pub next_frame-error_frame :
    (rpc_id code : ℕ) (rest : List ℕ)
    → next_frame (error_frame rpc_id code ++ rest) ≡ frame (error_frame rpc_id code) rest
unfolding error_frame
next_frame-error_frame rpc_id code rest =
    next_frame_exact (error_frame rpc_id code) rest (ntohl-htonl 20 _ (omega arith)) (omega arith)

pub next_frame-notify_frame :
    (rpc_id total_len : ℕ) (rest : List ℕ)
    → next_frame (notify_frame rpc_id total_len ++ rest)
      ≡ frame (notify_frame rpc_id total_len) rest
unfolding notify_frame
next_frame-notify_frame rpc_id total_len rest =
    next_frame_exact (notify_frame rpc_id total_len) rest (ntohl-htonl 16 _ (omega arith))
      (omega arith)

pub next_frame-auth_frame :
    (rpc_id rkey addr : ℕ) (rest : List ℕ)
    → next_frame (auth_frame rpc_id rkey addr ++ rest) ≡ frame (auth_frame rpc_id rkey addr) rest
unfolding auth_frame
next_frame-auth_frame rpc_id rkey addr rest =
    next_frame_exact (auth_frame rpc_id rkey addr) rest (ntohl-htonl 24 _ (omega arith))
      (omega arith)

pub next_frame-request_frame :
    (rpc_id : ℕ) (meta payload attachment rest : List ℕ)
    → 16 + length meta + length payload + length attachment < 2 ^ 32
    → next_frame (request_frame rpc_id meta payload attachment ++ rest)
      ≡ frame (request_frame rpc_id meta payload attachment) rest
unfolding request_frame request_len
next_frame-request_frame rpc_id meta payload attachment rest h =
    let n = length-append payload attachment in
    let m = length-append meta (payload ++ attachment) in
    next_frame_exact (request_frame rpc_id meta payload attachment) rest
      (ntohl-htonl (request_len meta payload attachment) _ (omega arith) ∙ omega (arith, n, m))
      (omega arith)
