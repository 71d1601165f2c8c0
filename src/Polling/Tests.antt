-- ===== src/Polling/Tests.antt =====
-- Runs of a poller.
use light_rpc.Prelude.{
  ℕ, zero, suc, ◌<◌, ◌≡◌, refl, false, Option, none, some, not_both, arith, update,
}
use light_rpc.Polling.{
  Poller, Polling, new_poller, add_read_event, on_comp_channel_event, complete, poll_cq, poll_round,
  on_drained, more_read_events,
}
use light_rpc.Polling.Watched.{
  Reach, here, then_, completes, reports, polls, idle, IsWatched, Reach-IsWatched,
}
use light_rpc.Polling.Drained.{IsDone, poll_cq_lem}

-- Forty completions on the second queue.
abbrev busy : Polling
busy = record idle {
  waiting = update idle.waiting 1 40;
  armed = update idle.armed 1 false;
  nevent = 2;
  poller = some new_poller;
}

poll_cq_lem_example : IsDone (poll_cq (λ i. 7) 818 busy)
poll_cq_lem_example =
    poll_cq_lem (λ i. 7) 818 busy new_poller refl
      (record { on = refl; phase = omega arith; passed = λ e. absurd (not_both e refl) })
      (omega arith)

-- One completion, its report, and the rounds of the poller that this starts.
abbrev round : Option Poller → Polling → Polling
round none s = s
round (some p) s = poll_round 0 p s

abbrev rounds : ℕ → Polling → Polling
rounds zero s = s
rounds (suc n) s = rounds n (round s.poller s)

one : {s : Polling} (o : Option Poller) → s.poller ≡ o → Reach idle s → Reach idle (round o s)
one none e r = r
one (some p) e r = then_ r (polls 0 p e)

rounds_reach : (n : ℕ) {s : Polling} → Reach idle s → Reach idle (rounds n s)
rounds_reach zero r = r
rounds_reach (suc n) {s} r = rounds_reach n (one s.poller refl r)

abbrev reported : Polling
reported = on_comp_channel_event (complete 2 false idle)

reported_reach : Reach idle reported
unfolding complete
reported_reach = then_ (then_ here (completes 2 false (omega arith))) (reports refl)

Reach-IsWatched_example :
    ((rounds 14 reported).nevent ≡ 0) × ((i : ℕ) → i < 4 → IsWatched (rounds 14 reported) i)
unfolding complete on_comp_channel_event add_read_event poll_round on_drained more_read_events
Reach-IsWatched_example = Reach-IsWatched (rounds_reach 14 reported_reach) refl refl refl
