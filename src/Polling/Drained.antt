-- ===== src/Polling/Drained.antt =====
-- A poller that nobody gives new work drains the queues and ends.
use light_rpc.Prelude.{
  ℕ, zero, suc, ◌+◌, ◌-◌, ◌*◌, ◌≤◌, ◌<◌, ◌≡◌, ◌≢◌, refl, sym, ap, ◌∙◌, subst, inl, inr, Bool, true,
  false, none, some, ltb, ltb→lt, ◌==◌, ==_iff, min, if◌then◌else◌, if_true, not_both, if_false,
  Bool-cases, update, arith,
}
use light_rpc.Polling.{
  Poller, Polling, with_poller, after_more, more_read_events, on_drained, poll_round, next_round,
  poll_cq,
}

abbrev total_waiting : (ℕ → ℕ) → ℕ
total_waiting w = w 0 + w 1 + w 2 + w 3

-- The rounds of a scan that finds nothing.
abbrev scan_left : Bool → ℕ → ℕ
scan_left true phase = 4 - phase
scan_left false phase = 8 - phase

abbrev pub rounds_left : Polling → Poller → ℕ
rounds_left s p =
    20 * total_waiting s.waiting
    + (10 * (if s.nevent == p.progress then 0 else 1) + scan_left p.notified p.phase)

-- What a scan that began with the arming has passed is empty.
pub record IsScan (s : Polling) (p : Poller) : Type 0 where
  pub on : s.stop ≡ false
  pub phase : p.phase ≤ 3
  pub passed : p.notified ≡ true → (i : ℕ) → i < p.phase → s.waiting i ≡ 0

pub record IsDone (s : Polling) : Type 0 where
  pub gone : s.poller ≡ none
  pub released : s.nevent ≡ 0
  pub empty : (i : ℕ) → i < 4 → s.waiting i ≡ 0

-- A round ends the polling, or leaves fewer of them.
data Round (s : Polling) (p : Poller) : Polling → Type 0 where
  ends : {t : Polling} → IsDone t → Round s p t
  goes :
      {t : Polling} (q : Poller)
      → t.poller ≡ some q
      → IsScan t q
      → rounds_left t q < rounds_left s p
      → Round s p t

taken :
    (w : ℕ → ℕ) (j n : ℕ)
    → j ≤ 3
    → 0 < w j
    → total_waiting (update w j (w j - min 32 (suc n))) < total_waiting w
taken w zero n h pos = omega arith
taken w (suc zero) n h pos = omega arith
taken w (suc (suc zero)) n h pos = omega arith
taken w (suc (suc (suc zero))) n h pos = omega arith
taken w (suc (suc (suc (suc j)))) n h pos = absurd (omega arith)

takes :
    (n : ℕ) (s : Polling) (p : Poller)
    → s.waiting p.phase ≢ 0
    → IsScan s p
    → Round s p (
        with_poller
          (record p { notified = false })
          (record s {
            waiting = update s.waiting p.phase (s.waiting p.phase - min 32 (suc n));
            urgent = update s.urgent p.phase (s.urgent p.phase - min 32 (suc n));
          }))
takes n s p some_left v =
    let fewer = taken s.waiting p.phase n v.phase (omega (arith, some_left)) in
    goes (record p { notified = false }) refl
      (record { on = v.on; phase = v.phase; passed = λ e. absurd (not_both e refl) })
      (cheaper (s.nevent == p.progress) p.notified _ _ p.phase fewer)
  where
    cheaper :
        (same b : Bool) (t u ph : ℕ)
        → t < u
        → 20 * t + (10 * (if same then 0 else 1) + scan_left false ph)
          < 20 * u + (10 * (if same then 0 else 1) + scan_left b ph)
    cheaper same true t u ph h = omega arith
    cheaper same false t u ph h = omega arith

passed_more :
    (s : Polling) (p : Poller)
    → s.waiting p.phase ≡ 0
    → ((i : ℕ) → i < p.phase → s.waiting i ≡ 0)
    → (i : ℕ) → i < p.phase + 1
    → s.waiting i ≡ 0
passed_more s p z h i k = elim (Bool-cases (ltb i p.phase)) [
  | inl b ↦ h i (ltb→lt i p.phase b)
  | inr b ↦ let same : i ≡ p.phase = ground arith in ap s.waiting same ∙ z
]

drains :
    (s : Polling) (p : Poller)
    → s.waiting p.phase ≡ 0
    → p.phase ≡ 3
    → IsScan s p
    → Round s p (on_drained p s)
unfolding on_drained more_read_events
drains s p z last v = elim (Bool-cases p.notified) [
  | inl n ↦ subst (Round s p) (sym (if_true _ _ n)) (elim (Bool-cases (s.nevent == p.progress)) [
    | inl c ↦ subst (Round s p) (sym (ap (after_more p) (if_true _ _ c))) (
        ends (record {
          gone = refl;
          released = refl;
          empty = λ i l. passed_more s p z (v.passed n) i (omega (arith, last));
        }))
    | inr c ↦ subst (Round s p) (sym (ap (after_more p) (if_false _ _ c))) (
        goes (record p { phase = 0; notified = false; progress = s.nevent }) refl
          (record { on = v.on; phase = omega arith; passed = λ e. absurd (not_both e refl) })
          (again (20 * total_waiting s.waiting) s.nevent p.progress p.notified p.phase c n last))
  ])
  | inr n ↦ subst (Round s p) (sym (if_false _ _ n)) (
      goes (record p { phase = 0; notified = true }) refl
        (record { on = v.on; phase = omega arith; passed = λ e i l. absurd (omega arith) })
        (arm (20 * total_waiting s.waiting) (10 * (if s.nevent == p.progress then 0 else 1))
          p.notified p.phase n last))
]
  where
    again :
        (t e k : ℕ) (b : Bool) (ph : ℕ)
        → (e == k) ≡ false
        → b ≡ true
        → ph ≡ 3
        → t + (10 * (if e == e then 0 else 1) + scan_left false 0)
          < t + (10 * (if e == k then 0 else 1) + scan_left b ph)
    again t e k b ph c n last =
        let self : (e == e) ≡ true = ground arith in rw (self, c, n, last) (omega arith)

    arm :
        (t k : ℕ) (b : Bool) (ph : ℕ)
        → b ≡ false
        → ph ≡ 3
        → t + (k + scan_left true 0) < t + (k + scan_left b ph)
    arm t k b ph n last = rw (n, last) (omega arith)

advances :
    (s : Polling) (p : Poller)
    → s.waiting p.phase ≡ 0
    → p.phase < 3
    → IsScan s p
    → Round s p (with_poller (record p { phase = p.phase + 1 }) s)
advances s p z l v =
    goes (record p { phase = p.phase + 1 }) refl
      (record { on = v.on; phase = omega arith; passed = λ e. passed_more s p z (v.passed e) })
      (shorter p.notified p.phase _ _ l)
  where
    shorter :
        (b : Bool) (ph t k : ℕ) → ph < 3 → t + (k + scan_left b (ph + 1)) < t + (k + scan_left b ph)
    shorter true ph t k h = omega arith
    shorter false ph t k h = omega arith

poll_round-Round :
    (most : ℕ) (s : Polling) (p : Poller) → IsScan s p → Round s p (poll_round most p s)
unfolding poll_round
poll_round-Round most s p v =
    subst (Round s p) (sym (if_false _ _ v.on)) (elim (Bool-cases (s.waiting p.phase == 0)) [
      | inl f ↦ subst (Round s p) (sym (if_true _ _ f)) (elim (Bool-cases (ltb p.phase 3)) [
        | inl g ↦
            subst (Round s p) (sym (if_true _ _ g))
              (advances s p ((==_iff _ _).0 f) (ltb→lt _ _ g) v)
        | inr g ↦
            subst (Round s p) (sym (if_false _ _ g))
              (drains s p ((==_iff _ _).0 f) (ground (arith, v.phase)) v)
      ])
      | inr f ↦
          subst (Round s p) (sym (if_false _ _ f))
            (takes most s p (λ z. not_both ((==_iff _ _).1 z) f) v)
    ])

done_stays : (most : ℕ → ℕ) (fuel : ℕ) (s : Polling) → s.poller ≡ none → poll_cq most fuel s ≡ s
unfolding poll_cq
done_stays most zero s e = refl
done_stays most (suc fuel) s e = ap (λ o. next_round o (most fuel) s (poll_cq most fuel)) e

scan_left_pos : (b : Bool) (ph : ℕ) → ph ≤ 3 → 0 < scan_left b ph
scan_left_pos true ph h = omega arith
scan_left_pos false ph h = omega arith

-- A poller that runs on its own, on an endpoint that does not stop, whatever ibv_poll_cq takes in a
-- round: within `rounds_left` rounds, twenty for each completion that waits and eighteen at most, it
-- has emptied all four queues, has taken its count of events back to 0 and is gone.
pub poll_cq_lem :
    (most : ℕ → ℕ) (fuel : ℕ) (s : Polling) (p : Poller)
    → s.poller ≡ some p
    → IsScan s p
    → rounds_left s p ≤ fuel
    → IsDone (poll_cq most fuel s)
unfolding poll_cq
poll_cq_lem most zero s p e v h = absurd (omega (arith, scan_left_pos p.notified p.phase v.phase))
poll_cq_lem most (suc fuel) s p e v h =
    subst IsDone (sym (ap (λ o. next_round o (most fuel) s (poll_cq most fuel)) e))
      (onwards (poll_round-Round (most fuel) s p v) (poll_cq_lem most fuel))
  where
    onwards :
        {t : Polling}
        → Round s p t
        → ((t : Polling) (q : Poller)
            → t.poller ≡ some q
            → IsScan t q
            → rounds_left t q ≤ fuel
            → IsDone (poll_cq most fuel t))
        → IsDone (poll_cq most fuel t)
    onwards {t} (ends d) next = subst IsDone (sym (done_stays most fuel t d.gone)) d
    onwards {t} (goes q e v l) next = next t q e v (omega arith)
