-- ===== src/Rpc/Channel/Responses.antt =====
-- A response that a server framed, at the channel.
use light_rpc.Prelude.{
  ℕ, ◌+◌, ◌-◌, ◌%◌, ◌^◌, ◌<◌, ◌≡◌, ◌≢◌, refl, ap, ◌∙◌, true, false, not, List, [], ◌++◌, Option,
  some, ltb, ◌==◌, if_true, if_false, length, length-append, arith, find,
}
use light_rpc.Hello.{htonl}
use light_rpc.Hello.Codec.{take_exact, drop_exact}
use light_rpc.Rpc.{msg_normal_response, err_success, response_len, response_frame, error_frame}
use light_rpc.Rpc.Words.{bind-htonl, attached}
use light_rpc.Rpc.Large.{Env}
use light_rpc.Rpc.Pending.{PendingRequest, Channel}
use light_rpc.Rpc.Channel.{complete, answer, on_process_response}

module _ {Response : Type 0} (env : Env) (parse_response : List ℕ → Option Response) where
  -- Any response frame, as far as its header.
  header_read :
      (ch : Channel Response) (rpc_id error_code size : ℕ) (body : List ℕ) (total : ℕ)
      → rpc_id < 2 ^ 32
      → error_code < 2 ^ 32
      → size < 2 ^ 32
      → on_process_response env parse_response
          (htonl total
            ++ (htonl msg_normal_response
                ++ (htonl rpc_id ++ (htonl error_code ++ (htonl size ++ body)))))
          ch
        ≡ some
            (answer env parse_response (find rpc_id ch.pending_map) rpc_id error_code size body ch)
  unfolding on_process_response
  header_read ch rpc_id error_code size body total id code small =
      bind-htonl msg_normal_response (htonl rpc_id ++ (htonl error_code ++ (htonl size ++ body))) _
        (omega arith)
      ∙ bind-htonl rpc_id (htonl error_code ++ (htonl size ++ body)) _ id
      ∙ bind-htonl error_code (htonl size ++ body) _ code
      ∙ bind-htonl size body _ small

  -- A response that fits 32 bits completes its pending call, with the message and the attachment that
  -- the frame was made of.
  pub on_process_response-response_frame :
      (ch : Channel Response) (p : PendingRequest Response) (r : Response) (rpc_id : ℕ)
      (payload attachment : List ℕ)
      → find rpc_id ch.pending_map ≡ some p
      → p.done ≡ false
      → parse_response payload ≡ some r
      → 20 + length payload + length attachment < 2 ^ 32
      → rpc_id < 2 ^ 32
      → on_process_response env parse_response
          (response_frame rpc_id err_success payload attachment)
          ch
        ≡ some (
          true,
          complete rpc_id
              (record p { response = some r; attachment = p.attachment ++ attachment })
              ch,
        )
  unfolding response_frame
  on_process_response-response_frame ch p r rpc_id payload attachment pending open_call parse fits
        id =
      let both = length-append payload attachment in
      let room : ltb (length (payload ++ attachment)) (length attachment) ≡ false =
        ground (arith, both) in
      let size : (length (payload ++ attachment) - length attachment) % 2 ^ 32 ≡ length payload =
        omega arith in
      header_read ch rpc_id err_success (length attachment) (payload ++ attachment)
        (response_len payload attachment) id (omega arith) (omega arith)
      ∙ ap some (
          ap
            (λ found.
              answer env parse_response found rpc_id err_success (length attachment)
                (payload ++ attachment) ch)
            pending
          ∙ if_false _ _ open_call
          ∙ rw
              (
                room,
                size,
                take_exact (length payload) payload attachment refl,
                drop_exact (length payload) payload attachment refl,
                parse,
                attached attachment,
              )
              refl)

  -- The error response of a server, for a call that waits: OnProcessResponse completes this call with just
  -- that error code and returns -1.
  pub on_process_response-error_frame :
      (ch : Channel Response) (p : PendingRequest Response) (rpc_id error_code : ℕ)
      → find rpc_id ch.pending_map ≡ some p
      → p.done ≡ false
      → error_code ≢ err_success
      → error_code < 2 ^ 32
      → rpc_id < 2 ^ 32
      → on_process_response env parse_response (error_frame rpc_id error_code) ch
        ≡ some (false, complete rpc_id (record p { error_code = error_code }) ch)
  unfolding error_frame
  on_process_response-error_frame ch p rpc_id error_code pending open_call error code id =
      let wrong : not (error_code == err_success) ≡ true = ground arith in
      header_read ch rpc_id error_code 0 [] 20 id code (omega arith)
      ∙ ap some (
          ap (λ found. answer env parse_response found rpc_id error_code 0 [] ch) pending
          ∙ if_false _ _ open_call
          ∙ if_true _ _ wrong)
