-- ===== src/Connections/Closed.antt =====
-- What Close waits for: no endpoint and no callback is left when it returns.
use light_rpc.Prelude.{
  mem, ℕ, ◌≡◌, refl, sym, ap, ap₂, ◌&&◌, subst, ◌∙◌, ◌⊎◌, inl, inr, Bool, true, false, ◌||◌, List,
  [], ◌∷◌, none, some, ◌==◌, if_true, if_false, not_both, Bool-cases, arith,
}
use light_rpc.Connections.{
  Closing, idle, stopping_set, listener_wait, unlistened, large_closed, failing, endpoints_wait,
  returned, FastServer, new_server, remove, prepare_listener, register_listener, is_idle, is_early,
  listener_gone, add_endpoint, after_lock, set_endpoint_failed, on_endpoint_recycled, no_endpoints,
  close, close_from,
}

-- BuildAndStart is called at most once and has returned before Close is called. The registration goes
-- after Close removed it, once the callback that runs has returned; an endpoint is recycled only after
-- it failed.
pub data Step (s : FastServer) : FastServer → Type 0 where
  starts : s.closing ≡ idle → s.listening ≡ false → Step s (prepare_listener s)
  registers : s.starting ≡ true → Step s (register_listener s)
  accepts : s.watched ≡ true → s.accepting ≡ false → Step s (record s { accepting = true })
  adds : (id : ℕ) → s.accepting ≡ true → s.added ≡ none → Step s (add_endpoint id s)
  goes_on : (id : ℕ) (b : Bool) → s.added ≡ some (id, b) → Step s (after_lock id b s)
  leaves : s.accepting ≡ true → s.added ≡ none → Step s (record s { accepting = false })
  unregistered :
      is_idle s.closing ≡ false → s.watched ≡ false → s.accepting ≡ false → Step s (listener_gone s)
  fails : (id : ℕ) → Step s (set_endpoint_failed id s)
  recycles : (id : ℕ) → mem id s.failed ≡ true → Step s (on_endpoint_recycled id s)
  closes : (t : FastServer) → is_early s ≡ false → close s ≡ some t → Step s t

pub data Reach (s : FastServer) : FastServer → Type 0 where
  start : Reach s s
  after : {s1 s2 : FastServer} → Reach s s1 → Step s1 s2 → Reach s s2

-- No accept callback runs, and none will.
abbrev pub IsQuiet : FastServer → Type 0
IsQuiet s = (s.watched ≡ false) × (s.accepting ≡ false)

abbrev pub IsFailing : List ℕ → FastServer → Type 0
IsFailing ids s =
    (id : ℕ) → mem id s.endpoints ≡ true → (mem id s.failed ≡ true) ⊎ (mem id ids ≡ true)

-- The listener is watched, and its registration is there.
abbrev pub IsOpen : FastServer → Type 0
IsOpen s =
    (s.listening ≡ false → IsQuiet s)
    × (s.listening ≡ true → (s.listener_recycled ≡ false) × (s.watched ≡ true))

abbrev pub IsAt : Closing → FastServer → Type 0
IsAt idle s =
    (s.listening ≡ false → IsQuiet s)
    × (s.listening ≡ true
        → (s.listener_recycled ≡ false) × ((s.watched ≡ true) ⊎ (s.starting ≡ true)))
IsAt stopping_set s = IsOpen s
IsAt listener_wait s = (s.watched ≡ false) × (s.listener_recycled ≡ true → s.accepting ≡ false)
IsAt unlistened s = IsQuiet s
IsAt large_closed s = IsQuiet s
IsAt (failing ids) s = IsQuiet s × IsFailing ids s
IsAt endpoints_wait s = IsQuiet s × ((id : ℕ) → mem id s.endpoints ≡ true → mem id s.failed ≡ true)
IsAt returned s = IsQuiet s × (s.endpoints ≡ [])

pub record IsClosing (s : FastServer) : Type 0 where
  pub at : IsAt s.closing s
  pub inside : s.accepting ≡ false → s.added ≡ none
  pub started : s.starting ≡ true → (s.closing ≡ idle) × (s.listening ≡ true)

mem_more : (id j : ℕ) (xs : List ℕ) → mem j xs ≡ true → mem j (id ∷ xs) ≡ true
mem_more id j xs m = ground arith

pub mem-remove : (id j : ℕ) (xs : List ℕ) → mem j (remove id xs) ≡ true → mem j xs ≡ true
mem-remove id j [] m = m
mem-remove id j (x ∷ xs) m = ground (arith, mem-remove id j xs)

no_endpoints_lem : (xs : List ℕ) → no_endpoints xs ≡ true → xs ≡ []
no_endpoints_lem [] e = refl
no_endpoints_lem (x ∷ xs) e = absurd (not_both e refl)

set_endpoint_failed-IsAt :
    (id : ℕ) (s : FastServer) (c : Closing) → IsAt c s → IsAt c (set_endpoint_failed id s)
set_endpoint_failed-IsAt id s idle v = v
set_endpoint_failed-IsAt id s stopping_set v = v
set_endpoint_failed-IsAt id s listener_wait v = v
set_endpoint_failed-IsAt id s unlistened v = v
set_endpoint_failed-IsAt id s large_closed v = v
set_endpoint_failed-IsAt id s (failing ids) (q, v) = (q, λ j m. grown j (v j m))
  where
    grown :
        (j : ℕ)
        → (mem j s.failed ≡ true) ⊎ (mem j ids ≡ true)
        → (mem j (id ∷ s.failed) ≡ true) ⊎ (mem j ids ≡ true)
    grown j (inl h) = inl (mem_more id j s.failed h)
    grown j (inr h) = inr h
set_endpoint_failed-IsAt id s endpoints_wait (q, v) = (q, λ j m. mem_more id j s.failed (v j m))
set_endpoint_failed-IsAt id s returned v = v

-- The callback returns.
ended-IsAt :
    (s : FastServer) (c : Closing)
    → IsAt c s
    → IsAt c (record s { added = none; accepting = false })
ended-IsAt s idle v = ((λ l. ((v.0 l).0, refl)), v.1)
ended-IsAt s stopping_set v = ((λ l. ((v.0 l).0, refl)), v.1)
ended-IsAt s listener_wait v = (v.0, λ l. refl)
ended-IsAt s unlistened v = (v.0, refl)
ended-IsAt s large_closed v = (v.0, refl)
ended-IsAt s (failing ids) v = ((v.0.0, refl), v.1)
ended-IsAt s endpoints_wait v = ((v.0.0, refl), v.1)
ended-IsAt s returned v = ((v.0.0, refl), v.1)

-- Only the listener's callback adds endpoints.
add-IsAt :
    (id : ℕ) (s : FastServer) (c : Closing)
    → s.accepting ≡ true
    → IsAt c s
    → IsAt c (add_endpoint id s)
unfolding add_endpoint
add-IsAt id s idle a v = v
add-IsAt id s stopping_set a v = v
add-IsAt id s listener_wait a v = v
add-IsAt id s unlistened a v = v
add-IsAt id s large_closed a v = v
add-IsAt id s (failing ids) a v = absurd (not_both a v.0.1)
add-IsAt id s endpoints_wait a v = absurd (not_both a v.0.1)
add-IsAt id s returned a v = absurd (not_both a v.0.1)

accept-IsAt :
    (s : FastServer) (c : Closing)
    → s.watched ≡ true
    → IsAt c s
    → IsAt c (record s { accepting = true })
accept-IsAt s idle w v = ((λ l. absurd (not_both w (v.0 l).0)), v.1)
accept-IsAt s stopping_set w v = ((λ l. absurd (not_both w (v.0 l).0)), v.1)
accept-IsAt s listener_wait w v = absurd (not_both w v.0)
accept-IsAt s unlistened w v = absurd (not_both w v.0)
accept-IsAt s large_closed w v = absurd (not_both w v.0)
accept-IsAt s (failing ids) w v = absurd (not_both w v.0.0)
accept-IsAt s endpoints_wait w v = absurd (not_both w v.0.0)
accept-IsAt s returned w v = absurd (not_both w v.0.0)

gone-IsAt :
    (s : FastServer) (c : Closing)
    → is_idle c ≡ false
    → s.watched ≡ false
    → s.accepting ≡ false
    → IsAt c s
    → IsAt c (listener_gone s)
unfolding listener_gone
gone-IsAt s idle n w a v = absurd (not_both refl n)
gone-IsAt s stopping_set n w a v = (v.0, λ l. absurd (not_both (v.1 l).1 w))
gone-IsAt s listener_wait n w a v = (v.0, λ l. a)
gone-IsAt s unlistened n w a v = v
gone-IsAt s large_closed n w a v = v
gone-IsAt s (failing ids) n w a v = v
gone-IsAt s endpoints_wait n w a v = v
gone-IsAt s returned n w a v = v

recycle-IsAt :
    (id : ℕ) (s : FastServer) (c : Closing) → IsAt c s → IsAt c (on_endpoint_recycled id s)
unfolding on_endpoint_recycled
recycle-IsAt id s idle v = v
recycle-IsAt id s stopping_set v = v
recycle-IsAt id s listener_wait v = v
recycle-IsAt id s unlistened v = v
recycle-IsAt id s large_closed v = v
recycle-IsAt id s (failing ids) (q, v) = (q, λ j m. v j (mem-remove id j s.endpoints m))
recycle-IsAt id s endpoints_wait (q, v) = (q, λ j m. v j (mem-remove id j s.endpoints m))
recycle-IsAt id s returned (q, v) = (q, ap (remove id) v)

-- The endpoint that Close has just failed.
pub next-IsFailing :
    (id : ℕ) (ids : List ℕ) (s : FastServer)
    → IsFailing (id ∷ ids) s
    → IsFailing ids (set_endpoint_failed id s)
next-IsFailing id ids s v j m = moved (v j m)
  where
    moved :
        (mem j s.failed ≡ true) ⊎ (mem j (id ∷ ids) ≡ true)
        → (mem j (id ∷ s.failed) ≡ true) ⊎ (mem j ids ≡ true)
    moved (inl h) = inl (mem_more id j s.failed h)
    moved (inr h) = elim (Bool-cases (id == j)) [
      | inl e ↦ inl (ap (λ b. b || mem j s.failed) e)
      | inr e ↦ inr (sym (ap (λ b. b || mem j ids) e) ∙ h)
    ]

pub all_failed :
    (s : FastServer)
    → IsFailing [] s
    → (id : ℕ) → mem id s.endpoints ≡ true
    → mem id s.failed ≡ true
all_failed s v id m = found (v id m)
  where
    found : (mem id s.failed ≡ true) ⊎ (mem id [] ≡ true) → mem id s.failed ≡ true
    found (inl h) = h
    found (inr h) = absurd (not_both h refl)

some_is : (P : FastServer → Type 0) {s t : FastServer} → some s ≡ some t → P s → P t
some_is P e p = subst P (cc) p

close-IsClosing :
    (c : Closing) (s t : FastServer)
    → close_from c s ≡ some t
    → IsAt c s
    → (s.accepting ≡ false → s.added ≡ none)
    → s.starting ≡ false
    → IsClosing t
close-IsClosing idle s t e v i st = some_is IsClosing e (record {
  at = (v.0, λ l. ((v.1 l).0, opened (v.1 l).1));
  inside = i;
  started = λ f. absurd (not_both f st);
})
  where
    opened : (s.watched ≡ true) ⊎ (s.starting ≡ true) → s.watched ≡ true
    opened (inl h) = h
    opened (inr h) = absurd (not_both h st)
close-IsClosing stopping_set s t e v i st = elim (Bool-cases s.listening) [
  | inl l ↦ some_is IsClosing (sym (if_true _ _ l) ∙ e) (record {
    at = (refl, λ r. absurd (not_both r (v.1 l).0));
    inside = i;
    started = λ f. absurd (not_both f st);
  })
  | inr l ↦
      some_is IsClosing (sym (if_false _ _ l) ∙ e)
        (record { at = v.0 l; inside = i; started = λ f. absurd (not_both f st) })
]
close-IsClosing listener_wait s t e v i st = elim (Bool-cases s.listener_recycled) [
  | inl r ↦
      some_is IsClosing (sym (if_true _ _ r) ∙ e)
        (record { at = (v.0, v.1 r); inside = i; started = λ f. absurd (not_both f st) })
  | inr r ↦ let never = sym (if_false _ _ r) ∙ e in absurd (cc)
]
close-IsClosing unlistened s t e v i st =
    some_is IsClosing e (record { at = v; inside = i; started = λ f. absurd (not_both f st) })
close-IsClosing large_closed s t e v i st =
    some_is IsClosing e
      (record { at = (v, λ id m. inr m); inside = i; started = λ f. absurd (not_both f st) })
close-IsClosing (failing []) s t e v i st =
    some_is IsClosing e
      (record { at = (v.0, all_failed s v.1); inside = i; started = λ f. absurd (not_both f st) })
close-IsClosing (failing (id ∷ ids)) s t e v i st = some_is IsClosing e (record {
  at = (v.0, next-IsFailing id ids s v.1);
  inside = i;
  started = λ f. absurd (not_both f st);
})
close-IsClosing endpoints_wait s t e v i st = elim (Bool-cases (no_endpoints s.endpoints)) [
  | inl n ↦ some_is IsClosing (sym (if_true _ _ n) ∙ e) (record {
    at = (v.0, no_endpoints_lem s.endpoints n);
    inside = i;
    started = λ f. absurd (not_both f st);
  })
  | inr n ↦ let never = sym (if_false _ _ n) ∙ e in absurd (cc)
]
close-IsClosing returned s t e v i st = absurd (cc)

after_lock-IsClosing :
    (id : ℕ) (b : Bool) (s : FastServer) → IsClosing s → IsClosing (after_lock id b s)
unfolding after_lock
after_lock-IsClosing id false s v = record {
  at = kept s.closing v.at;
  inside = λ a. refl;
  started = v.started;
}
  where
    kept : (c : Closing) → IsAt c s → IsAt c (record s { added = none })
    kept idle w = w
    kept stopping_set w = w
    kept listener_wait w = w
    kept unlistened w = w
    kept large_closed w = w
    kept (failing ids) w = w
    kept endpoints_wait w = w
    kept returned w = w
after_lock-IsClosing id true s v = record {
  at =
      set_endpoint_failed-IsAt id (record s { added = none; accepting = false }) s.closing
        (ended-IsAt s s.closing v.at);
  inside = λ a. refl;
  started = v.started;
}

leave-IsAt : (s : FastServer) (c : Closing) → IsAt c s → IsAt c (record s { accepting = false })
leave-IsAt s idle v = ((λ l. ((v.0 l).0, refl)), v.1)
leave-IsAt s stopping_set v = ((λ l. ((v.0 l).0, refl)), v.1)
leave-IsAt s listener_wait v = (v.0, λ l. refl)
leave-IsAt s unlistened v = (v.0, refl)
leave-IsAt s large_closed v = (v.0, refl)
leave-IsAt s (failing ids) v = ((v.0.0, refl), v.1)
leave-IsAt s endpoints_wait v = ((v.0.0, refl), v.1)
leave-IsAt s returned v = ((v.0.0, refl), v.1)

-- Close goes on only where BuildAndStart is not at work.
not_starting : (s : FastServer) → IsClosing s → is_early s ≡ false → s.starting ≡ false
not_starting s v late = elim (Bool-cases s.starting) [
  | inl e ↦ absurd (not_both (ap₂ (λ c b. is_idle c && b) (v.started e).0 e) late)
  | inr e ↦ e
]

Step-IsClosing : {s t : FastServer} → Step s t → IsClosing s → IsClosing t
unfolding prepare_listener register_listener listener_gone add_endpoint on_endpoint_recycled close
Step-IsClosing {s} (starts idle_now l) v = record {
  at =
      subst (λ c. IsAt c (prepare_listener s)) (sym idle_now)
        ((λ f. absurd (not_both refl f)), λ f. (refl, inr refl));
  inside = v.inside;
  started = λ f. (idle_now, refl);
}
Step-IsClosing {s} (registers b) v =
    let (idle_now, listens) = v.started b in
    record {
      at =
          subst (λ c. IsAt c (register_listener s)) (sym idle_now)
            (
              (λ l. absurd (not_both listens l)),
              λ l. (((subst (λ c. IsAt c s) idle_now v.at).1 l).0, inl refl),
            );
      inside = v.inside;
      started = λ f. absurd (not_both f refl);
    }
Step-IsClosing {s} (accepts w a) v = record {
  at = accept-IsAt s s.closing w v.at;
  inside = λ f. absurd (not_both refl f);
  started = v.started;
}
Step-IsClosing {s} (adds id a n) v = record {
  at = add-IsAt id s s.closing a v.at;
  inside = λ f. absurd (not_both a f);
  started = v.started;
}
Step-IsClosing {s} (goes_on id b e) v = after_lock-IsClosing id b s v
Step-IsClosing {s} (leaves a n) v = record {
  at = leave-IsAt s s.closing v.at;
  inside = λ f. n;
  started = v.started;
}
Step-IsClosing {s} (unregistered n w a) v = record {
  at = gone-IsAt s s.closing n w a v.at;
  inside = v.inside;
  started = v.started;
}
Step-IsClosing {s} (fails id) v = record {
  at = set_endpoint_failed-IsAt id s s.closing v.at;
  inside = v.inside;
  started = v.started;
}
Step-IsClosing {s} (recycles id m) v = record {
  at = recycle-IsAt id s s.closing v.at;
  inside = v.inside;
  started = v.started;
}
Step-IsClosing {s} (closes t late e) v =
    close-IsClosing s.closing s t e v.at v.inside (not_starting s v late)

new_server-IsClosing : IsClosing new_server
new_server-IsClosing = record {
  at = ((λ l. (refl, refl)), λ l. absurd (not_both l refl));
  inside = λ a. refl;
  started = λ f. absurd (not_both f refl);
}

pub Reach-IsClosing : {s : FastServer} → Reach new_server s → IsClosing s
Reach-IsClosing start = new_server-IsClosing
Reach-IsClosing (after r step) = Step-IsClosing step (Reach-IsClosing r)

-- On a server on which BuildAndStart is called at most once and has returned before Close is called, in
-- any interleaving of BuildAndStart, the accept callback, failures and recycling of endpoints and Close, in which the
-- registration of the listener goes only when Close removed it and no callback runs, and an endpoint is recycled only
-- after it failed: while Close waits for the endpoints, each that is left was failed;
-- once it returned, the listener is not watched, no accept callback runs nor is inside AddEndpoint,
-- and every endpoint that was added was recycled.
pub Reach-IsClosed :
    {s : FastServer}
    → Reach new_server s
    → (s.closing ≡ endpoints_wait → (id : ℕ) → mem id s.endpoints ≡ true → mem id s.failed ≡ true)
      × (s.closing ≡ returned → IsQuiet s × (s.added ≡ none) × (s.endpoints ≡ []))
Reach-IsClosed {s} r =
    let v = Reach-IsClosing r in
    (
      λ e. (subst (λ c. IsAt c s) e v.at).1,
      λ e. let (q, n) = subst (λ c. IsAt c s) e v.at in (q, v.inside q.1, n),
    )
