-- ===== src/Polling.antt =====
-- Who polls the completion queues: OnCompChannelEvent, AddReadEvent, MoreReadEvents and the loop of PollCq
-- (src-endpoint/fast_rdma_endpoint.cc). The queues are those of `cqs`, 0 to 3, with how many
-- completions wait in each; queues 0 and 1 are those for receives. ibverbs is by what it documents: a
-- queue that is armed signals the next completion that notifies, once: on a receive queue, which is
-- armed with solicited_only, only a solicited one, on the others each. `urgent` is how many of the
-- completions of a queue wait up to the last one that notifies, and is nothing that the code reads.
-- `signal` is a readable completion channel that epoll, which is edge-triggered, has still to report.
-- The count of events does not overflow.
pub mod Watched
pub mod Drained
mod Tests
use light_rpc.Prelude.{
  ℕ, zero, suc, ◌+◌, ◌-◌, ◌<◌, Bool, true, false, not, ◌&&◌, ◌||◌, Option, none, some, ltb, ◌==◌,
  min, if◌then◌else◌, update,
}

-- PROGRESS_INIT
abbrev pub progress_init : ℕ
progress_init = 1

-- The variables of PollCq.
pub record Poller : Type 0 where
  pub phase : ℕ
  pub notified : Bool
  pub progress : ℕ

-- `clash` where a poller was started beside another.
pub record Polling : Type 0 where
  pub waiting : ℕ → ℕ
  pub urgent : ℕ → ℕ
  pub armed : ℕ → Bool
  pub signal : Bool
  pub nevent : ℕ
  pub stop : Bool
  pub poller : Option Poller
  pub clash : Bool

unfoldable pub add_read_event : Polling → Bool × Polling
add_read_event s =
    if s.stop then (false, s) else (s.nevent == 0, record s { nevent = s.nevent + 1 })

-- The result, and `progress`.
unfoldable pub more_read_events : ℕ → Polling → Bool × ℕ × Polling
more_read_events progress s =
    if s.nevent == progress then (false, progress, record s { nevent = 0 }) else (true, s.nevent, s)

abbrev pub new_poller : Poller
new_poller = record { phase = 0; notified = false; progress = progress_init }

abbrev pub is_some : Option Poller → Bool
is_some none = false
is_some (some p) = true

abbrev pub start : Bool × Polling → Polling
start (false, s) = s
start (true, s) = record s { poller = some new_poller; clash = s.clash || is_some s.poller }

-- The callback of the completion channel.
unfoldable pub on_comp_channel_event : Polling → Polling
unfolding add_read_event
on_comp_channel_event s = start (add_read_event (record s { signal = false }))

abbrev pub with_poller : Poller → Polling → Polling
with_poller p s = record s { poller = some p }

abbrev pub after_more : Poller → Bool × ℕ × Polling → Polling
after_more p (false, progress, s) = record s { poller = none }
after_more p (true, progress, s) =
    with_poller (record p { phase = 0; notified = false; progress = progress }) s

-- All completion queues are drained.
unfoldable pub on_drained : Poller → Polling → Polling
unfolding more_read_events
on_drained p s =
    if p.notified
    then after_more p (more_read_events p.progress s)
    else with_poller (record p { phase = 0; notified = true }) (record s { armed = λ i. true })

-- A round of PollCq, in which ibv_poll_cq takes at most `most + 1` completions.
unfoldable pub poll_round : ℕ → Poller → Polling → Polling
unfolding on_drained
poll_round most p s =
    if s.stop
    then record s { poller = none }
    else if s.waiting p.phase == 0
    then (if ltb p.phase 3
        then with_poller (record p { phase = p.phase + 1 }) s
        else on_drained p s)
    else with_poller (record p { notified = false })
        (record s {
          waiting = update s.waiting p.phase (s.waiting p.phase - min 32 (suc most));
          urgent = update s.urgent p.phase (s.urgent p.phase - min 32 (suc most));
        })

-- A completion that notifies.
abbrev pub complete_notifying : ℕ → Polling → Polling
complete_notifying i s =
    let more = record s {
      waiting = update s.waiting i (s.waiting i + 1);
      urgent = update s.urgent i (s.waiting i + 1);
    } in
    if s.armed i then record more { armed = update s.armed i false; signal = true } else more

-- A completion on a queue, which the sender marked as solicited or not.
unfoldable pub complete : ℕ → Bool → Polling → Polling
complete i solicited s =
    if ltb i 2 && not solicited
    then record s { waiting = update s.waiting i (s.waiting i + 1) }
    else complete_notifying i s

abbrev pub next_round : Option Poller → ℕ → Polling → (Polling → Polling) → Polling
next_round none most s rest = s
next_round (some p) most s rest = rest (poll_round most p s)

-- Rounds of the poller, until it gives up the queues; `most` may differ in each.
unfoldable pub poll_cq : (ℕ → ℕ) → ℕ → Polling → Polling
unfolding poll_round
poll_cq most zero s = s
poll_cq most (suc fuel) s = next_round s.poller (most fuel) s (poll_cq most fuel)
