-- ===== src/Connections/Tests.antt =====
-- Runs of a server.
use light_rpc.Prelude.{mem, ◌≡◌, refl, ℕ, true, false, [], ◌∷◌, none, some}
use light_rpc.Connections.{
  FastServer, new_server, stopping_set, prepare_listener, register_listener, listener_gone,
  add_endpoint, after_lock, on_endpoint_recycled, close, endpoints_wait, returned,
}
use light_rpc.Connections.Closed.{
  Reach, start, after, starts, registers, accepts, adds, goes_on, unregistered, recycles, closes,
  Reach-IsClosed, IsQuiet,
}
use light_rpc.Connections.Returns.{CanReturn, close_returns}

-- Close has begun while endpoint 7 is being accepted.
abbrev accepted : FastServer
accepted = record {
  endpoints = 7 ∷ [];
  stopping = true;
  listening = true;
  listener_recycled = false;
  closed = false;
  failed = [];
  starting = false;
  watched = true;
  accepting = true;
  added = some (7, true);
  closing = stopping_set;
}

accepted_run : Reach new_server accepted
unfolding prepare_listener register_listener add_endpoint close
accepted_run =
    after
      (after (after (after (after start (starts refl refl)) (registers refl)) (accepts refl refl))
        (closes _ refl refl))
      (adds 7 refl refl)

close_returns_example : CanReturn accepted
close_returns_example = close_returns accepted_run

-- The endpoint, the callback and the listener go, and Close returns.
abbrev ended : FastServer
ended = record {
  endpoints = [];
  stopping = true;
  listening = false;
  listener_recycled = true;
  closed = true;
  failed = 7 ∷ 7 ∷ [];
  starting = false;
  watched = false;
  accepting = false;
  added = none;
  closing = returned;
}

ended_run : Reach new_server ended
unfolding prepare_listener register_listener add_endpoint after_lock listener_gone
    on_endpoint_recycled close
ended_run =
    after
      (after
        (after
          (after
            (after
              (after
                (after
                  (after (after (after accepted_run (goes_on 7 true refl)) (closes _ refl refl))
                    (unregistered refl refl refl))
                  (closes _ refl refl))
                (closes _ refl refl))
              (closes _ refl refl))
            (closes _ refl refl))
          (closes _ refl refl))
        (recycles 7 refl))
      (closes _ refl refl)

Reach-IsClosed_example :
    (ended.closing ≡ endpoints_wait
      → (id : ℕ) → mem id ended.endpoints ≡ true
      → mem id ended.failed ≡ true)
    × (ended.closing ≡ returned → IsQuiet ended × (ended.added ≡ none) × (ended.endpoints ≡ []))
Reach-IsClosed_example = Reach-IsClosed ended_run
