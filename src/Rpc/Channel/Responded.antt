-- ===== src/Rpc/Channel/Responded.antt =====
-- What one message does to the calls of a channel.
use light_rpc.Prelude.{
  ℕ, ◌≡◌, refl, sym, subst, Bool, false, not, List, Option, none, some, ltb, ◌==◌, if◌then◌else◌,
  if_both, if_false, Bool-cases, inl, inr, find, bind_some, drop, length, ◌^◌, ◌*◌, ◌+◌, if_true,
  ◌>>=◌, ◌++◌,
}
use light_rpc.Rpc.{read32, msg_notify, msg_authority, err_success, err_bad_response}
use light_rpc.Rpc.Large.{Conn, Env}
use light_rpc.Rpc.Large.Alive.{on_notify-failed, on_authority-failed}
use light_rpc.Rpc.Pending.{PendingRequest, Channel}
use light_rpc.Rpc.Channel.{
  complete, parsed, answer, answer_open, answer_success, by_type, on_process_response,
}

module _ {Response : Type 0} where
  -- No call is touched, or one that waited is completed; the connection's failure is as it was.
  pub data Responded (ch : Channel Response) : Channel Response → Type 0 where
    untouched : (c : Conn) → c.failed ≡ ch.conn.failed → Responded ch (record ch { conn = c })
    completed :
        (rpc_id : ℕ) (p q : PendingRequest Response)
        → find rpc_id ch.pending_map ≡ some p
        → p.done ≡ false
        → q.transport_error ≡ p.transport_error
        → q.timed_out ≡ p.timed_out
        → Responded ch (complete rpc_id q ch)

  module _ (env : Env) (parse_response : List ℕ → Option Response) (ch : Channel Response) where
    same : Responded ch ch
    same = untouched ch.conn refl

    parsed-Responded :
        (r : Option Response) (rpc_id : ℕ) (p : PendingRequest Response) (a : List ℕ)
        → find rpc_id ch.pending_map ≡ some p
        → p.done ≡ false
        → Responded ch (parsed r rpc_id p a ch).1
    parsed-Responded none rpc_id p a e f =
        completed rpc_id p (record p { error_code = err_bad_response }) e f refl refl
    parsed-Responded (some r) rpc_id p a e f =
        completed rpc_id p (record p { response = some r; attachment = p.attachment ++ a }) e f refl
          refl

    open-Responded :
        (p : PendingRequest Response) (rpc_id code size : ℕ) (frame : List ℕ)
        → find rpc_id ch.pending_map ≡ some p
        → p.done ≡ false
        → Responded ch (answer_open env parse_response p rpc_id code size frame ch).1
    open-Responded p rpc_id code size frame e f =
        if_both (λ (w : Bool × Channel Response). Responded ch w.1) (ltb (length frame) size)
          (false, complete rpc_id (record p { error_code = err_bad_response }) ch)
          (if not (code == err_success)
            then (false, complete rpc_id (record p { error_code = code }) ch)
            else answer_success env parse_response p rpc_id size frame ch)
          (completed rpc_id p (record p { error_code = err_bad_response }) e f refl refl)
          (if_both (λ (w : Bool × Channel Response). Responded ch w.1) (not (code == err_success))
            (false, complete rpc_id (record p { error_code = code }) ch)
            (answer_success env parse_response p rpc_id size frame ch)
            (completed rpc_id p (record p { error_code = code }) e f refl refl)
            (parsed-Responded _ rpc_id p _ e f))

    answer-Responded :
        (o : Option (PendingRequest Response)) (rpc_id code size : ℕ) (frame : List ℕ)
        → find rpc_id ch.pending_map ≡ o
        → Responded ch (answer env parse_response o rpc_id code size frame ch).1
    answer-Responded none rpc_id code size frame e = same
    answer-Responded (some p) rpc_id code size frame e = elim (Bool-cases p.done) [
      | inl f ↦
          subst {A = Bool × Channel Response} (λ w. Responded ch w.1) (sym (if_true _ _ f)) same
      | inr f ↦
          subst {A = Bool × Channel Response} (λ w. Responded ch w.1) (sym (if_false _ _ f))
            (open-Responded p rpc_id code size frame e f)
    ]

    -- Whatever the result is.
    abbrev Responds : Option (Bool × Channel Response) → Type 0
    Responds o = (r : Bool) (ch2 : Channel Response) → o ≡ some (r, ch2) → Responded ch ch2

    landed : (w : Bool × Channel Response) → Responded ch w.1 → Responds (some w)
    landed w h r ch2 e = subst (Responded ch) (result w r ch2 e) h
      where
        result :
            (w : Bool × Channel Response) (r : Bool) (ch2 : Channel Response)
            → some w ≡ some (r, ch2)
            → w.1 ≡ ch2
        result w r ch2 e = cc

    next :
        (l : List ℕ) (k : ℕ × List ℕ → Option (Bool × Channel Response))
        → ((w : ℕ × List ℕ) → Responds (k w))
        → Responds (read32 l >>= k)
    next l k h r ch2 e = let (w, e1) = bind_some {A = ℕ × List ℕ} (read32 l) k e in h w r ch2 e1

    by_type-Responds :
        (t rpc_id : ℕ) (frame : List ℕ) → Responds (by_type env parse_response t rpc_id frame ch)
    by_type-Responds t rpc_id frame =
        if_both Responds (t == msg_notify) _ _
          (next frame _ λ w. landed _ (untouched _ (on_notify-failed env rpc_id w.0 ch.conn)))
          (if_both Responds (t == msg_authority) _ _
            (next frame _ λ k. next k.1 _ λ hi. next hi.1 _ λ lo.
              landed _
                (untouched _ (on_authority-failed env rpc_id k.0 (hi.0 * 2 ^ 32 + lo.0) ch.conn)))
            (next frame _ λ code. next code.1 _ λ size.
              landed _
                (answer-Responded (find rpc_id ch.pending_map) rpc_id code.0 size.0 size.1 refl)))

    pub on_process_response-Responded :
        (frame : List ℕ) → Responds (on_process_response env parse_response frame ch)
    unfolding on_process_response
    on_process_response-Responded frame =
        next (drop 4 frame) _ λ t. next t.1 _ λ id. by_type-Responds t.0 id.0 id.1
