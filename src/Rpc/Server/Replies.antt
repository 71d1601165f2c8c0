-- ===== src/Rpc/Server/Replies.antt =====
-- The reply of a service below the threshold of large messages.
use light_rpc.Prelude.{
  ℕ, ◌+◌, ◌≤◌, ◌^◌, ◌<◌, ◌≡◌, ◌∙◌, ap, Bool, true, false, List, [], ◌∷◌, ◌++◌, some, leb, if_false,
  if_true, insert, ◌||◌, ltb, length, arith,
}
use light_rpc.Prelude.Bits.{add32}
use light_rpc.Rpc.{msg_threshold, response_len, response_frame, notify_frame}
use light_rpc.Rpc.Framing.{length-response_frame}
use light_rpc.Rpc.Large.{
  Segment, Conn, Env, start_write, store_large_frame, start_large_transfer,
  can_start_large_transfer,
}
use light_rpc.Rpc.Server.{return_rpc_response, wait_for_large_writable, notify}
use light_rpc.Rpc.Channel.Calls.{start_write_lem}

pub response_len_lem :
    (payload attachment : List ℕ)
    → 20 + length payload + length attachment < 2 ^ 32
    → response_len payload attachment ≡ 20 + length payload + length attachment
unfolding response_len
response_len_lem payload attachment h = omega arith

pub return_rpc_response_small :
    (env : Env) (segments : List ℕ → List Segment) (wakes : Conn → List (Bool × Conn))
    (rpc_id error_code : ℕ) (payload attachment : List ℕ) (c : Conn)
    → c.failed ≡ false
    → env.accepts (response_frame rpc_id error_code payload attachment) ≡ true
    → response_len payload attachment < msg_threshold
    → return_rpc_response env segments wakes rpc_id error_code payload attachment c
      ≡ some (record c {
        written = c.written ++ (response_frame rpc_id error_code payload attachment ∷ []);
      })
unfolding return_rpc_response
return_rpc_response_small env segments wakes rpc_id error_code payload attachment c alive accepted
      small =
    let below : leb msg_threshold (response_len payload attachment) ≡ false = ground arith in
    if_false _ _ alive
    ∙ if_false _ _ below
    ∙ ap (λ (w : Bool × Conn). some w.1)
        (start_write_lem env (response_frame rpc_id error_code payload attachment) c alive accepted)

-- The server after it announced a large response.
abbrev pub announced : (List ℕ → List Segment) → ℕ → ℕ → List ℕ → List ℕ → Conn → Conn
announced segments rpc_id error_code payload attachment c = record c {
  large_frames =
      insert rpc_id (segments (response_frame rpc_id error_code payload attachment)) c.large_frames;
  active = add32 c.active 1;
  written =
      c.written
      ++ (notify_frame rpc_id (length (response_frame rpc_id error_code payload attachment)) ∷ []);
}

-- A reply that reaches the threshold, where a transfer can start at once.
pub return_rpc_response_large :
    (env : Env) (segments : List ℕ → List Segment) (rpc_id error_code : ℕ)
    (payload attachment : List ℕ) (c : Conn)
    → msg_threshold ≤ 20 + length payload + length attachment
    → 20 + length payload + length attachment < 2 ^ 32
    → c.active < 8
    → c.failed ≡ false
    → env.accepts
        (notify_frame rpc_id (length (response_frame rpc_id error_code payload attachment)))
      ≡ true
    → return_rpc_response env segments (λ s. (false, s) ∷ []) rpc_id error_code payload attachment c
      ≡ some (announced segments rpc_id error_code payload attachment c)
unfolding return_rpc_response wait_for_large_writable store_large_frame start_large_transfer
    can_start_large_transfer
return_rpc_response_large env segments rpc_id error_code payload attachment c large fits room alive
      accepted =
    let size = length-response_frame rpc_id error_code payload attachment in
    let total : response_len payload attachment
        ≡ length (response_frame rpc_id error_code payload attachment) =
      omega (arith, response_len_lem payload attachment fits) in
    let above : leb msg_threshold (response_len payload attachment) ≡ true =
      ground (arith, total, size) in
    let can : (ltb c.active 8 || leb (2 ^ 31) c.active) ≡ true = ground arith in
    let started : Conn = record c {
      large_frames =
          insert rpc_id (segments (response_frame rpc_id error_code payload attachment))
            c.large_frames;
      active = add32 c.active 1;
    } in
    if_false _ _ alive
    ∙ if_true _ _ above
    ∙ ap (notify env rpc_id (response_len payload attachment))
        (if_false _ _ alive ∙ if_true _ _ can)
    ∙ ap (λ n. some (start_write env (notify_frame rpc_id n) started).1) total
    ∙ ap (λ (w : Bool × Conn). some w.1)
        (start_write_lem env
          (notify_frame rpc_id (length (response_frame rpc_id error_code payload attachment)))
          started alive accepted)
