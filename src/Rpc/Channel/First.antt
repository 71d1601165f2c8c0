-- ===== src/Rpc/Channel/First.antt =====
-- The first of a response, a failure and a timeout decides a call.
use light_rpc.Prelude.{
  ℕ, ◌≡◌, ◌≢◌, refl, sym, ap, ◌∙◌, subst, ◌⊎◌, inl, inr, Bool, true, false, List, Option, none,
  some, ◌==◌, if_both, if_true, if_false, Bool-cases, find, insert, erase, find-insert, find-erase,
  arith,
}
use light_rpc.Rpc.Large.{Env}
use light_rpc.Rpc.Pending.{
  PendingRequest, Channel, Outcome, failed, succeeded, new_pending, fail_all, on_endpoint_failed,
  set_failed, register_pending, erase_pending, end_wait, mark_timed_out, finish_call, finish,
  outcome, keep_attachment,
}
use light_rpc.Rpc.Channel.Responded.{Responded, untouched, completed, on_process_response-Responded}
use light_rpc.Rpc.Channel.Settled.{
  Step, registers, sends, responds, fails, waited, finishes, abandons, find-fail_all, fail_found,
}

module _ {Response : Type 0} where
  -- The call is in the map as it was, or has left it.
  abbrev pub IsKept : ℕ → PendingRequest Response → List (ℕ × PendingRequest Response) → Type 0
  IsKept k p m = (find k m ≡ some p) ⊎ (find k m ≡ none)

  -- Changes to another entry.
  insert_other :
      (j k : ℕ) (q : PendingRequest Response) (m : List (ℕ × PendingRequest Response))
      → j ≢ k
      → find k (insert j q m) ≡ find k m
  insert_other j k q m h =
      let other : (j == k) ≡ false = ground arith in find-insert j k q m ∙ if_false _ _ other

  erase-IsKept :
      (j k : ℕ) (p : PendingRequest Response) (m : List (ℕ × PendingRequest Response))
      → find k m ≡ some p
      → IsKept k p (erase j m)
  erase-IsKept j k p m h = elim (Bool-cases (j == k)) [
    | inl e ↦ inr (find-erase j k m ∙ if_true _ _ e)
    | inr e ↦ inl (find-erase j k m ∙ if_false _ _ e ∙ h)
  ]

  -- Two entries of the map, one done and one not, have different keys.
  differ :
      (j k : ℕ) (p q : PendingRequest Response) (m : List (ℕ × PendingRequest Response))
      → find k m ≡ some p
      → p.done ≡ true
      → find j m ≡ some q
      → q.done ≡ false
      → j ≢ k
  differ j k p q m e d f o same =
      let eq : some p ≡ some q = sym e ∙ ap (λ i. find i m) (sym same) ∙ f in
      absurd (true_false (sym d ∙ ap done_of eq ∙ o))
    where
      done_of : Option (PendingRequest Response) → Bool
      done_of none = true
      done_of (some r) = r.done

      true_false : true ≢ false
      true_false h = cc

  module _ (k : ℕ) (p : PendingRequest Response) (decided : p.done ≡ true) where
    fail-IsKept :
        (error : ℕ) (m : List (ℕ × PendingRequest Response))
        → find k m ≡ some p
        → IsKept k p (fail_all error m)
    fail-IsKept error m e =
        inl (find-fail_all error k m ∙ ap (fail_found error) e ∙ ap some (if_true _ _ decided))

    set_failed-IsKept :
        (error : ℕ) (ch : Channel Response)
        → find k ch.pending_map ≡ some p
        → IsKept k p (set_failed error ch).pending_map
    unfolding set_failed on_endpoint_failed
    set_failed-IsKept error ch e =
        if_both (λ (w : Channel Response). IsKept k p w.pending_map) ch.conn.failed ch _ (inl e)
          (fail-IsKept _ ch.pending_map e)

    register-IsKept :
        (j : ℕ) (ch : Channel Response)
        → find j ch.pending_map ≡ none
        → find k ch.pending_map ≡ some p
        → IsKept k p (register_pending j ch).1.pending_map
    unfolding register_pending
    register-IsKept j ch new e =
        if_both (λ (w : Option ℕ × Channel Response). IsKept k p w.1.pending_map)
          (ch.connection_error == 0) _ _
          (inl (insert_other j k new_pending ch.pending_map apart ∙ e)) (inl e)
      where
        some_none : some p ≢ none
        some_none h = cc

        apart : j ≢ k
        apart same = some_none (sym e ∙ ap (λ i. find i ch.pending_map) (sym same) ∙ new)

    mark-IsKept :
        (j : ℕ) (o : Option (PendingRequest Response)) (ch : Channel Response)
        → find j ch.pending_map ≡ o
        → find k ch.pending_map ≡ some p
        → IsKept k p (mark_timed_out j o ch).pending_map
    mark-IsKept j none ch f e = inl e
    mark-IsKept j (some q) ch f e = elim (Bool-cases q.done) [
      | inl d ↦
          subst (λ (w : Channel Response). IsKept k p w.pending_map) (sym (if_true _ _ d)) (inl e)
      | inr d ↦
          subst (λ (w : Channel Response). IsKept k p w.pending_map) (sym (if_false _ _ d))
            (inl
              (insert_other j k _ ch.pending_map (differ j k p q ch.pending_map e decided f d) ∙ e))
    ]

    keep_map :
        (o : Outcome Response) (q : PendingRequest Response) (ch : Channel Response)
        → (keep_attachment o q ch).pending_map ≡ ch.pending_map
    keep_map (failed x) q ch = refl
    keep_map (succeeded x) q ch = refl

    finish-IsKept :
        (j : ℕ) (m : Option (PendingRequest Response)) (o : Outcome Response)
        (ch ch2 : Channel Response)
        → finish j m ch ≡ some (o, ch2)
        → find k ch.pending_map ≡ some p
        → IsKept k p ch2.pending_map
    finish-IsKept j none o ch ch2 h e = absurd (cc)
    finish-IsKept j (some q) o ch ch2 h e =
        let same : erase_pending j (keep_attachment (outcome q) q ch) ≡ ch2 = cc in
        subst (λ (w : Channel Response). IsKept k p w.pending_map) same
          (erase-IsKept j k p _ (ap (find k) (keep_map (outcome q) q ch) ∙ e))

    responded-IsKept :
        {ch ch2 : Channel Response}
        → Responded ch ch2
        → find k ch.pending_map ≡ some p
        → IsKept k p ch2.pending_map
    responded-IsKept (untouched c f) e = inl e
    responded-IsKept {ch} (completed j q r f d t o) e =
        inl (insert_other j k _ ch.pending_map (differ j k p q ch.pending_map e decided f d) ∙ e)

  -- Once a call is done, no later step changes what it ended with: its entry stays as it is until it
  -- leaves the map.
  pub Step-IsKept :
      (env : Env) (parse_response : List ℕ → Option Response) {ch ch2 : Channel Response} (k : ℕ)
      (p : PendingRequest Response)
      → Step env parse_response ch ch2
      → find k ch.pending_map ≡ some p
      → p.done ≡ true
      → IsKept k p ch2.pending_map
  Step-IsKept env parse_response {ch} k p (registers j new) e d = register-IsKept k p d j ch new e
  Step-IsKept env parse_response {ch} k p (sends c i a b f) e d = inl e
  Step-IsKept env parse_response {ch} k p (responds f r ch2 h) e d =
      responded-IsKept k p d (on_process_response-Responded env parse_response ch f r ch2 h) e
  Step-IsKept env parse_response {ch} k p (fails error) e d = set_failed-IsKept k p d error ch e
  Step-IsKept env parse_response {ch} k p (waited j) e d =
      unfold end_wait in mark-IsKept k p d j (find j ch.pending_map) ch refl e
  Step-IsKept env parse_response {ch} k p (finishes j o ch2 h) e d =
      finish-IsKept k p d j (find j ch.pending_map) o ch ch2 (unfold finish_call in h) e
  Step-IsKept env parse_response {ch} k p (abandons j) e d = erase-IsKept j k p ch.pending_map e
