-- ===== src/Rpc/Channel/Settled.antt =====
-- The calls of a channel under the steps of its threads: registering a call, giving it up or waiting
-- for it, a message, a failure of the endpoint, in any order.
use light_rpc.Prelude.{
  ℕ, ◌≡◌, ◌≢◌, refl, sym, ◌∙◌, subst, inl, inr, Bool, true, List, [], ◌∷◌, Option, none, some, ◌==◌,
  ==_iff, if◌then◌else◌, if_both, if_true, if_false, Bool-cases, find, insert, erase, find-insert,
  find-erase, arith,
}
use light_rpc.Rpc.Large.{Conn, Env}
use light_rpc.Rpc.Pending.{
  PendingRequest, Channel, Outcome, new_pending, fail_pending, fail_all, on_endpoint_failed,
  set_failed, register_pending, erase_pending, end_wait, mark_timed_out, finish_call, finish, eio,
  outcome, keep_attachment, failed, succeeded,
}
use light_rpc.Rpc.Channel.{on_process_response}
use light_rpc.Rpc.Channel.Responded.{Responded, untouched, completed, on_process_response-Responded}

module _ {Response : Type 0} where
  -- A call, or none, on a connection with this error, 0 for none: with an error the call is done, and a
  -- transport error of the call is the connection's.
  abbrev pub IsCall : ℕ → Option (PendingRequest Response) → Type 0
  IsCall error none = Unit
  IsCall error (some p) =
      (error ≢ 0 → p.done ≡ true) × (p.transport_error ≢ 0 → p.transport_error ≡ error)

  pub record IsSettled (ch : Channel Response) : Type 0 where
    pub failed_error : ch.conn.failed ≡ true → ch.connection_error ≢ 0
    pub calls : (k : ℕ) → IsCall ch.connection_error (find k ch.pending_map)

  abbrev AreCalls : ℕ → List (ℕ × PendingRequest Response) → Type 0
  AreCalls error m = (k : ℕ) → IsCall error (find k m)

  AreCalls-insert :
      (error j : ℕ) (q : PendingRequest Response) (m : List (ℕ × PendingRequest Response))
      → IsCall error (some q)
      → AreCalls error m
      → AreCalls error (insert j q m)
  AreCalls-insert error j q m g h k =
      subst (IsCall error) (sym (find-insert j k q m))
        (if_both (IsCall error) (j == k) (some q) (find k m) g (h k))

  AreCalls-erase :
      (error j : ℕ) (m : List (ℕ × PendingRequest Response))
      → AreCalls error m
      → AreCalls error (erase j m)
  AreCalls-erase error j m h k =
      subst (IsCall error) (sym (find-erase j k m))
        (if_both (IsCall error) (j == k) none (find k m) tt (h k))

  abbrev pub fail_found : ℕ → Option (PendingRequest Response) → Option (PendingRequest Response)
  fail_found error none = none
  fail_found error (some p) = some (fail_pending error p)

  pub find-fail_all :
      (error k : ℕ) (m : List (ℕ × PendingRequest Response))
      → find k (fail_all error m) ≡ fail_found error (find k m)
  unfolding find fail_all
  find-fail_all error k [] = refl
  find-fail_all error k ((j, p) ∷ m) = ground (arith, find-fail_all error k m)

  fail_found-IsCall :
      (old new : ℕ) (o : Option (PendingRequest Response))
      → (old ≢ 0 → old ≡ new)
      → IsCall old o
      → IsCall new (fail_found new o)
  fail_found-IsCall old new none same h = tt
  fail_found-IsCall old new (some p) same h = elim (Bool-cases p.done) [
    | inl e ↦
        subst (λ q. IsCall new (some q)) (sym (if_true _ _ e))
          (λ x. e, λ x. let eq = h.1 x in eq ∙ same (λ z. x (eq ∙ z)))
    | inr e ↦ subst (λ q. IsCall new (some q)) (sym (if_false _ _ e)) (λ x. refl, λ x. refl)
  ]

module _ {Response : Type 0} (env : Env) (parse_response : List ℕ → Option Response) where
  -- A call registers where no call has its id. `sends` is what the other steps of a call do to the
  -- connection and to the caller's fields.
  pub data Step (ch : Channel Response) : Channel Response → Type 0 where
    registers :
        (rpc_id : ℕ) → find rpc_id ch.pending_map ≡ none → Step ch (register_pending rpc_id ch).1
    sends :
        (c : Conn) (rpc_id : ℕ) (a b : List ℕ)
        → c.failed ≡ ch.conn.failed
        → Step ch (record ch {
          conn = c;
          rpc_id = rpc_id;
          request_attachment = a;
          response_attachment = b;
        })
    responds :
        (frame : List ℕ) (r : Bool) (ch2 : Channel Response)
        → on_process_response env parse_response frame ch ≡ some (r, ch2)
        → Step ch ch2
    fails : (error : ℕ) → Step ch (set_failed error ch)
    waited : (rpc_id : ℕ) → Step ch (end_wait rpc_id ch)
    finishes :
        (rpc_id : ℕ) (o : Outcome Response) (ch2 : Channel Response)
        → finish_call rpc_id ch ≡ some (o, ch2)
        → Step ch ch2
    abandons : (rpc_id : ℕ) → Step ch (erase_pending rpc_id ch)

  pub data Reach (ch : Channel Response) : Channel Response → Type 0 where
    start : Reach ch ch
    after : {ch1 ch2 : Channel Response} → Reach ch ch1 → Step ch1 ch2 → Reach ch ch2

  register-IsSettled :
      (rpc_id : ℕ) (ch : Channel Response) → IsSettled ch → IsSettled (register_pending rpc_id ch).1
  unfolding register_pending
  register-IsSettled rpc_id ch v = elim (Bool-cases (ch.connection_error == 0)) [
    | inl e ↦
        let none_yet : ch.connection_error ≡ 0 = (==_iff _ _).0 e in
        subst {A = Option ℕ × Channel Response} (λ w. IsSettled w.1) (sym (if_true _ _ e))
          (record {
            failed_error = v.failed_error;
            calls =
                AreCalls-insert ch.connection_error rpc_id new_pending ch.pending_map
                  (λ x. absurd (x none_yet), λ x. absurd (x refl)) v.calls;
          })
    | inr e ↦ subst {A = Option ℕ × Channel Response} (λ w. IsSettled w.1) (sym (if_false _ _ e)) v
  ]

  first_error :
      (old error : ℕ)
      → error ≢ 0
      → ((if old == 0 then error else old) ≢ 0)
        × (old ≢ 0 → old ≡ (if old == 0 then error else old))
  first_error old error h = elim (Bool-cases (old == 0)) [
    | inl e ↦ rw e (h, λ x. absurd (x ((==_iff _ _).0 e)))
    | inr e ↦ rw e (λ x. absurd (ground arith), λ x. refl)
  ]

  endpoint_failed-IsSettled :
      (error : ℕ) (ch : Channel Response)
      → error ≢ 0
      → AreCalls ch.connection_error ch.pending_map
      → IsSettled (on_endpoint_failed error ch)
  unfolding on_endpoint_failed
  endpoint_failed-IsSettled error ch nonzero calls =
      let (set, same) = first_error ch.connection_error error nonzero in
      record {
        failed_error = λ f. set;
        calls = λ k.
            subst (IsCall (if ch.connection_error == 0 then error else ch.connection_error))
              (sym (find-fail_all _ k ch.pending_map))
              (fail_found-IsCall ch.connection_error _ (find k ch.pending_map) same (calls k));
      }

  set_failed-IsSettled :
      (error : ℕ) (ch : Channel Response) → IsSettled ch → IsSettled (set_failed error ch)
  unfolding set_failed
  set_failed-IsSettled error ch v = if_both IsSettled ch.conn.failed ch _ v (
      endpoint_failed-IsSettled (if error == 0 then eio else error)
        (record ch { conn = record ch.conn { failed = true } }) (given error) v.calls)
    where
      given : (error : ℕ) → (if error == 0 then eio else error) ≢ 0
      given error h = ground arith

  mark-IsSettled :
      (k : ℕ) (o : Option (PendingRequest Response)) (ch : Channel Response)
      → find k ch.pending_map ≡ o
      → IsSettled ch
      → IsSettled (mark_timed_out k o ch)
  mark-IsSettled k none ch e v = v
  mark-IsSettled k (some p) ch e v =
      let old : IsCall ch.connection_error (some p) =
        subst (IsCall ch.connection_error) e (v.calls k) in
      if_both IsSettled p.done ch _ v (record {
        failed_error = v.failed_error;
        calls =
            AreCalls-insert ch.connection_error k (record p { timed_out = true; done = true })
              ch.pending_map (λ x. refl, old.1) v.calls;
      })

  erase-IsSettled : (k : ℕ) (ch : Channel Response) → IsSettled ch → IsSettled (erase_pending k ch)
  erase-IsSettled k ch v = record {
    failed_error = v.failed_error;
    calls = AreCalls-erase ch.connection_error k ch.pending_map v.calls;
  }

  keep-IsSettled :
      (o : Outcome Response) (p : PendingRequest Response) (ch : Channel Response)
      → IsSettled ch
      → IsSettled (keep_attachment o p ch)
  keep-IsSettled (failed e) p ch v = v
  keep-IsSettled (succeeded r) p ch v = record { failed_error = v.failed_error; calls = v.calls }

  finish-IsSettled :
      (k : ℕ) (m : Option (PendingRequest Response)) (o : Outcome Response)
      (ch ch2 : Channel Response)
      → finish k m ch ≡ some (o, ch2)
      → IsSettled ch
      → IsSettled ch2
  finish-IsSettled k none o ch ch2 e v = absurd (cc)
  finish-IsSettled k (some p) o ch ch2 e v =
      let same : erase_pending k (keep_attachment (outcome p) p ch) ≡ ch2 = cc in
      subst IsSettled same (erase-IsSettled k _ (keep-IsSettled (outcome p) p ch v))

  responded-IsSettled :
      {ch ch2 : Channel Response} → Responded ch ch2 → IsSettled ch → IsSettled ch2
  responded-IsSettled (untouched c e) v = record {
    failed_error = λ f. v.failed_error (sym e ∙ f);
    calls = v.calls;
  }
  responded-IsSettled {ch} (completed rpc_id p q e open_call t o) v =
      let old : IsCall ch.connection_error (some p) =
        subst (IsCall ch.connection_error) e (v.calls rpc_id) in
      record {
        failed_error = v.failed_error;
        calls =
            AreCalls-insert ch.connection_error rpc_id (record q { done = true }) ch.pending_map
              (λ x. refl, λ x. t ∙ old.1 (λ z. x (t ∙ z))) v.calls;
      }

  Step-IsSettled : {ch ch2 : Channel Response} → Step ch ch2 → IsSettled ch → IsSettled ch2
  Step-IsSettled {ch} (registers rpc_id e) v = register-IsSettled rpc_id ch v
  Step-IsSettled {ch} (sends c rpc_id a b e) v = record {
    failed_error = λ f. v.failed_error (sym e ∙ f);
    calls = v.calls;
  }
  Step-IsSettled {ch} (responds f r ch2 e) v =
      responded-IsSettled (on_process_response-Responded env parse_response ch f r ch2 e) v
  Step-IsSettled {ch} (fails e) v = set_failed-IsSettled e ch v
  Step-IsSettled {ch} (waited k) v =
      unfold end_wait in mark-IsSettled k (find k ch.pending_map) ch refl v
  Step-IsSettled {ch} (finishes k o ch2 e) v =
      finish-IsSettled k (find k ch.pending_map) o ch ch2 (unfold finish_call in e) v
  Step-IsSettled {ch} (abandons k) v = erase-IsSettled k ch v

  -- In any sequence of steps of the channel (calls registered under unused ids, waits that end, calls
  -- finished or given up, messages of any content, failures of the endpoint), from a settled state, as
  -- the new channel's: once the connection has an error every call in the map is done, so that none
  -- waits, a call's transport error is the connection's first error, and a failed endpoint has set it.
  pub Reach-IsSettled : {ch ch2 : Channel Response} → Reach ch ch2 → IsSettled ch → IsSettled ch2
  Reach-IsSettled start v = v
  Reach-IsSettled (after r s) v = Step-IsSettled s (Reach-IsSettled r v)
