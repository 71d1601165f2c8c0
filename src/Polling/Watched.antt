-- ===== src/Polling/Watched.antt =====
-- No completion that notifies waits unwatched, and there is one poller at most.
use light_rpc.Prelude.{
  ℕ, ◌+◌, ◌≤◌, ◌<◌, ◌≡◌, refl, sym, ap, ap₂, ◌∙◌, subst, ◌⊎◌, inl, inr, true, false, not, ◌&&◌,
  ◌||◌, Bool, Option, none, some, ltb, ltb→lt, ◌==◌, ==_iff, if_true, not_both, if_false, if_both,
  Bool-cases, update, arith,
}
use light_rpc.Polling.{
  Poller, Polling, is_some, start, add_read_event, on_comp_channel_event, with_poller, after_more,
  more_read_events, on_drained, poll_round, complete, complete_notifying,
}

pub data Step (s : Polling) : Polling → Type 0 where
  completes : (i : ℕ) (solicited : Bool) → i < 4 → Step s (complete i solicited s)
  reports : s.signal ≡ true → Step s (on_comp_channel_event s)
  polls : (most : ℕ) (p : Poller) → s.poller ≡ some p → Step s (poll_round most p s)
  stops : Step s (record s { stop = true })

pub data Reach (s : Polling) : Polling → Type 0 where
  here : Reach s s
  then_ : {s1 s2 : Polling} → Reach s s1 → Step s1 s2 → Reach s s2

-- A queue in which no completion waits that notifies, and which signals the next one that does.
abbrev pub IsWatched : Polling → ℕ → Type 0
IsWatched s i = (s.urgent i ≡ 0) × (s.armed i ≡ true)

-- Something is about to make a poller look at all queues.
abbrev pub IsDue : Polling → ℕ → Type 0
IsDue s progress = (s.signal ≡ true) ⊎ (progress < s.nevent)

-- Of the poller: what it has found drained since it armed the queues stays watched.
pub record IsPolling (s : Polling) (p : Poller) : Type 0 where
  pub phase : p.phase ≤ 3
  pub owns : 0 < p.progress
  pub counted : p.progress ≤ s.nevent
  pub armed :
      p.notified ≡ true
      → IsDue s p.progress
        ⊎ (((i : ℕ) → i < 4 → s.armed i ≡ true) × ((i : ℕ) → i < p.phase → s.urgent i ≡ 0))

abbrev pub IsOwned : Polling → Option Poller → Type 0
IsOwned s none = (s.nevent ≡ 0) × ((s.signal ≡ true) ⊎ ((i : ℕ) → i < 4 → IsWatched s i))
IsOwned s (some p) = IsPolling s p

pub record Inv (s : Polling) : Type 0 where
  pub single : s.clash ≡ false
  pub within : (i : ℕ) → s.urgent i ≤ s.waiting i
  pub owned : s.stop ≡ false → IsOwned s s.poller

-- Where the queue was armed, the completion signals; else it was not watched.
signalled :
    (i : ℕ) (s : Polling) (o : Option Poller)
    → IsOwned s o
    → IsOwned
        (record s {
          waiting = update s.waiting i (s.waiting i + 1);
          urgent = update s.urgent i (s.waiting i + 1);
          armed = update s.armed i false;
          signal = true;
        })
        o
signalled i s none v = (v.0, inl refl)
signalled i s (some p) v = record {
  phase = v.phase;
  owns = v.owns;
  counted = v.counted;
  armed = λ n. inl (inl refl);
}

unsignalled :
    (i : ℕ) (s : Polling) (o : Option Poller)
    → i < 4
    → s.armed i ≡ false
    → IsOwned s o
    → IsOwned
        (record s {
          waiting = update s.waiting i (s.waiting i + 1);
          urgent = update s.urgent i (s.waiting i + 1);
        })
        o
unsignalled i s none l e (z, inl h) = (z, inl h)
unsignalled i s none l e (z, inr h) = absurd (not_both (h i l).1 e)
unsignalled i s (some p) l e v = record {
  phase = v.phase;
  owns = v.owns;
  counted = v.counted;
  armed = λ n. still (v.armed n);
}
  where
    still :
        IsDue s p.progress
          ⊎ (((i : ℕ) → i < 4 → s.armed i ≡ true) × ((i : ℕ) → i < p.phase → s.urgent i ≡ 0))
        → IsDue s p.progress
          ⊎ (((i : ℕ) → i < 4 → s.armed i ≡ true)
              × ((j : ℕ) → j < p.phase → update s.urgent i (s.waiting i + 1) j ≡ 0))
    still (inl h) = inl h
    still (inr h) = absurd (not_both (h.0 i l) e)

update_within :
    (u w : ℕ → ℕ) (i a b : ℕ)
    → a ≤ b
    → ((j : ℕ) → u j ≤ w j)
    → (j : ℕ) → update u i a j ≤ update w i b j
update_within u w i a b h k j = elim (Bool-cases (i == j)) [ inl e ↦ rw e h | inr e ↦ rw e (k j) ]

above : (u w : ℕ → ℕ) (i : ℕ) → ((j : ℕ) → u j ≤ w j) → (j : ℕ) → u j ≤ update w i (w i + 1) j
above u w i k j = elim (Bool-cases (i == j)) [
  | inl e ↦
      let same : i ≡ j = (==_iff i j).0 e in
      let small = k i in rw e (subst (λ x. u x ≤ w i + 1) same (omega (arith, small)))
  | inr e ↦ rw e (k j)
]

notifying-Inv : (i : ℕ) (s : Polling) → i < 4 → Inv s → Inv (complete_notifying i s)
notifying-Inv i s l v =
    let within = update_within s.urgent s.waiting i _ _ (omega arith) v.within in
    elim (Bool-cases (s.armed i)) [
      | inl e ↦ subst Inv (sym (if_true _ _ e)) (record {
        single = v.single;
        within = within;
        owned = λ on. signalled i s s.poller (v.owned on);
      })
      | inr e ↦ subst Inv (sym (if_false _ _ e)) (record {
        single = v.single;
        within = within;
        owned = λ on. unsignalled i s s.poller l e (v.owned on);
      })
    ]

-- A completion that does not notify is seen when the queue is next polled.
silent_stays :
    (w : ℕ → ℕ) (s : Polling) (o : Option Poller)
    → IsOwned s o
    → IsOwned (record s { waiting = w }) o
silent_stays w s none v = v
silent_stays w s (some p) v = record {
  phase = v.phase;
  owns = v.owns;
  counted = v.counted;
  armed = v.armed;
}

completes-Inv :
    (i : ℕ) (solicited : Bool) (s : Polling) → i < 4 → Inv s → Inv (complete i solicited s)
unfolding complete
completes-Inv i solicited s l v =
    if_both Inv (ltb i 2 && not solicited) _ _
      (record {
        single = v.single;
        within = above s.urgent s.waiting i v.within;
        owned = λ on. silent_stays _ s s.poller (v.owned on);
      })
      (notifying-Inv i s l v)

-- A callback starts a poller where there is none, and tells the one there is.
reported :
    (s : Polling) (o : Option Poller)
    → s.poller ≡ o
    → s.stop ≡ false
    → s.clash ≡ false
    → ((i : ℕ) → s.urgent i ≤ s.waiting i)
    → IsOwned s o
    → Inv (on_comp_channel_event s)
unfolding on_comp_channel_event add_read_event
reported s none e on single within (z, w) =
    let first : (s.nevent == 0) ≡ true = ground arith in
    subst Inv
      (sym (
        ap start (
          if_false _ _ on
          ∙ ap (λ b. (b, record s { signal = false; nevent = s.nevent + 1 })) first)))
      (record {
        single = ap₂ (λ c o. c || is_some o) single e;
        within = within;
        owned = λ on. record {
          phase = omega arith;
          owns = omega arith;
          counted = omega arith;
          armed = λ n. absurd (not_both n refl);
        };
      })
reported s (some p) e on single within v =
    let later : (s.nevent == 0) ≡ false = ground (arith, v.owns, v.counted) in
    subst Inv
      (sym (
        ap start (
          if_false _ _ on
          ∙ ap (λ b. (b, record s { signal = false; nevent = s.nevent + 1 })) later)))
      (record {
        single = single;
        within = within;
        owned = λ on.
            subst (IsOwned (record s { signal = false; nevent = s.nevent + 1 })) (sym e) (record {
              phase = v.phase;
              owns = v.owns;
              counted = omega (arith, v.counted);
              armed = λ n. inl (inr (omega (arith, v.counted)));
            });
      })

reports-Inv : (s : Polling) → Inv s → Inv (on_comp_channel_event s)
unfolding on_comp_channel_event add_read_event
reports-Inv s v = elim (Bool-cases s.stop) [
  | inl e ↦
      subst Inv (sym (ap start (if_true _ _ e)))
        (record { single = v.single; within = v.within; owned = λ on. absurd (not_both e on) })
  | inr e ↦ reported s s.poller refl e v.single v.within (v.owned e)
]

none_urgent :
    (s : Polling) (i : ℕ) → s.waiting i ≡ 0 → ((j : ℕ) → s.urgent j ≤ s.waiting j) → s.urgent i ≡ 0
none_urgent s i z h = omega (arith, h i)

-- The next queue.
advances :
    (p : Poller) (s : Polling)
    → s.waiting p.phase ≡ 0
    → p.phase < 3
    → IsPolling s p
    → Inv s
    → Inv (with_poller (record p { phase = p.phase + 1 }) s)
advances p s z l q v = record {
  single = v.single;
  within = v.within;
  owned = λ o. record {
    phase = omega arith;
    owns = q.owns;
    counted = q.counted;
    armed = λ n. further (q.armed n);
  };
}
  where
    upto : ((i : ℕ) → i < p.phase → s.urgent i ≡ 0) → (i : ℕ) → i < p.phase + 1 → s.urgent i ≡ 0
    upto h i k = elim (Bool-cases (ltb i p.phase)) [
      | inl b ↦ h i (ltb→lt i p.phase b)
      | inr b ↦
          let same : i ≡ p.phase = ground arith in
          ap s.urgent same ∙ none_urgent s p.phase z v.within
    ]

    further :
        IsDue s p.progress
          ⊎ (((i : ℕ) → i < 4 → s.armed i ≡ true) × ((i : ℕ) → i < p.phase → s.urgent i ≡ 0))
        → IsDue s p.progress
          ⊎ (((i : ℕ) → i < 4 → s.armed i ≡ true) × ((i : ℕ) → i < p.phase + 1 → s.urgent i ≡ 0))
    further (inl h) = inl h
    further (inr h) = inr (h.0, upto h.1)

-- Arming the queues, giving up the right to poll, or going on for new events.
drains :
    (p : Poller) (s : Polling)
    → s.waiting p.phase ≡ 0
    → p.phase ≡ 3
    → IsPolling s p
    → Inv s
    → Inv (on_drained p s)
unfolding on_drained more_read_events
drains p s z last q v = elim (Bool-cases p.notified) [
  | inl n ↦ subst Inv (sym (if_true _ _ n)) (elim (Bool-cases (s.nevent == p.progress)) [
    | inl c ↦
        let same = (==_iff _ _).0 c in
        subst Inv (sym (ap (after_more p) (if_true _ _ c))) (record {
          single = v.single;
          within = v.within;
          owned = λ o. (refl, leaves same (q.armed n));
        })
    | inr c ↦ subst Inv (sym (ap (after_more p) (if_false _ _ c))) (record {
      single = v.single;
      within = v.within;
      owned = λ o. record {
        phase = omega arith;
        owns = omega (arith, q.owns, q.counted);
        counted = omega arith;
        armed = λ m. absurd (not_both m refl);
      };
    })
  ])
  | inr n ↦ subst Inv (sym (if_false _ _ n)) (record {
    single = v.single;
    within = v.within;
    owned = λ o. record {
      phase = omega arith;
      owns = q.owns;
      counted = q.counted;
      armed = λ m. inr ((λ i l. refl), λ i l. absurd (omega arith));
    };
  })
]
  where
    empty : ((i : ℕ) → i < p.phase → s.urgent i ≡ 0) → (i : ℕ) → i < 4 → s.urgent i ≡ 0
    empty h i l = elim (Bool-cases (ltb i p.phase)) [
      | inl b ↦ h i (ltb→lt i p.phase b)
      | inr b ↦
          let same : i ≡ p.phase = ground (arith, last) in
          ap s.urgent same ∙ none_urgent s p.phase z v.within
    ]

    leaves :
        s.nevent ≡ p.progress
        → IsDue s p.progress
          ⊎ (((i : ℕ) → i < 4 → s.armed i ≡ true) × ((i : ℕ) → i < p.phase → s.urgent i ≡ 0))
        → (s.signal ≡ true) ⊎ ((i : ℕ) → i < 4 → IsWatched s i)
    leaves same (inl (inl h)) = inl h
    leaves same (inl (inr h)) = absurd (omega arith)
    leaves same (inr h) = inr λ i l. (empty h.1 i l, h.0 i l)

polls-Inv :
    (most : ℕ) (p : Poller) (s : Polling) → s.poller ≡ some p → Inv s → Inv (poll_round most p s)
unfolding poll_round on_drained more_read_events
polls-Inv most p s e v = elim (Bool-cases s.stop) [
  | inl f ↦
      subst Inv (sym (if_true _ _ f))
        (record { single = v.single; within = v.within; owned = λ on. absurd (not_both f on) })
  | inr on ↦
      let q : IsPolling s p = subst (IsOwned s) e (v.owned on) in
      subst Inv (sym (if_false _ _ on)) (elim (Bool-cases (s.waiting p.phase == 0)) [
        | inl f ↦ subst Inv (sym (if_true _ _ f)) (elim (Bool-cases (ltb p.phase 3)) [
          | inl g ↦
              subst Inv (sym (if_true _ _ g)) (advances p s ((==_iff _ _).0 f) (ltb→lt _ _ g) q v)
          | inr g ↦
              subst Inv (sym (if_false _ _ g))
                (drains p s ((==_iff _ _).0 f) (ground (arith, q.phase)) q v)
        ])
        | inr f ↦ subst Inv (sym (if_false _ _ f)) (record {
          single = v.single;
          within =
              update_within s.urgent s.waiting p.phase _ _ (omega (arith, v.within p.phase))
                v.within;
          owned = λ o. record {
            phase = q.phase;
            owns = q.owns;
            counted = q.counted;
            armed = λ n. absurd (not_both n refl);
          };
        })
      ])
]

Step-Inv : {s t : Polling} → Step s t → Inv s → Inv t
Step-Inv {s} (completes i solicited l) v = completes-Inv i solicited s l v
Step-Inv {s} (reports e) v = reports-Inv s v
Step-Inv {s} (polls most p e) v = polls-Inv most p s e v
Step-Inv {s} stops v = record {
  single = v.single;
  within = v.within;
  owned = λ e. absurd (not_both refl e);
}

Reach-Inv : {s t : Polling} → Reach s t → Inv s → Inv t
Reach-Inv here v = v
Reach-Inv (then_ r st) v = Step-Inv st (Reach-Inv r v)

-- An endpoint with its queues armed.
abbrev pub idle : Polling
idle = record {
  waiting = λ i. 0;
  urgent = λ i. 0;
  armed = λ i. true;
  signal = false;
  nevent = 0;
  stop = false;
  poller = none;
  clash = false;
}

idle-Inv : Inv idle
idle-Inv = record {
  single = refl;
  within = λ i. omega arith;
  owned = λ e. (refl, inr λ i l. (refl, refl));
}

-- In any sequence of completions, reports of the completion channel, rounds of a poller and stops, from
-- an endpoint with its queues empty and armed, no poller is ever started beside another.
pub Reach-single : {s : Polling} → Reach idle s → s.clash ≡ false
Reach-single r = (Reach-Inv r idle-Inv).single

quiet-IsWatched :
    (s : Polling)
    → s.signal ≡ false
    → IsOwned s none
    → (s.nevent ≡ 0) × ((i : ℕ) → i < 4 → IsWatched s i)
quiet-IsWatched s quiet (z, inl h) = absurd (not_both h quiet)
quiet-IsWatched s quiet (z, inr h) = (z, h)

-- In any sequence of completions, solicited or not, reports of the completion channel, rounds of a poller
-- and stops, from an endpoint with its queues empty and armed: where the endpoint has not stopped,
-- nobody polls and no report is due, the count of events is 0, all four queues are armed, and no
-- completion waits that notifies: every one on a queue for sends, every solicited one on a queue for
-- receives. Those that wait there came unsolicited, after the last solicited one was taken.
pub Reach-IsWatched :
    {s : Polling}
    → Reach idle s
    → s.stop ≡ false
    → s.poller ≡ none
    → s.signal ≡ false
    → (s.nevent ≡ 0) × ((i : ℕ) → i < 4 → IsWatched s i)
Reach-IsWatched {s} r on gone quiet =
    quiet-IsWatched s quiet (subst (IsOwned s) gone ((Reach-Inv r idle-Inv).owned on))
