-- ===== src/Events/Tests.antt =====
-- Runs of the dispatcher.
use light_rpc.Prelude.{ℕ, ◌≡◌, refl, true, false, [], ◌∷◌, none, some, find}
use light_rpc.Events.{
  EventDispatcher, EpollEvents, register_event, unregister_event, dispatch, run_event,
}
use light_rpc.Events.Registered.{
  IsNew, start, after, registers, unregisters, IsConsistent, Reach-IsConsistent,
}
use light_rpc.Events.Silent.{unregister-silent}

abbrev no_events : EventDispatcher
no_events = record { fd_map = []; sources = []; failed = [] }

no_events-IsConsistent : IsConsistent no_events
unfolding find
no_events-IsConsistent = record {
  watched = λ fd id e. absurd (cc);
  live = λ fd id e. absurd (cc);
  one_fd = λ a b id e. absurd (cc);
}

no_events-IsNew : (id : ℕ) → IsNew id no_events
unfolding find
no_events-IsNew id = (refl, λ fd e. cc)

Reach-IsConsistent_example :
    IsConsistent
      (unregister_event true 5 (some 11) (register_event (some 11) true 5 none no_events).2).1
Reach-IsConsistent_example =
    Reach-IsConsistent
      (after (after start (registers 11 true 5 none (no_events-IsNew 11)))
        (unregisters true 5 (some 11)))
      no_events-IsConsistent

abbrev one_event : EventDispatcher
one_event = record { fd_map = (5, 11) ∷ []; sources = (5, 11) ∷ []; failed = [] }

abbrev readable : EpollEvents
readable = record { epollin = true; epollout = false; epollerr = false; epollhup = true }

unregister-silent_example :
    (run_event 11 readable
        (unregister_event true 5 (some 11) one_event).1
        (unregister_event true 5 (some 11) one_event).1
      ≡ [])
    × (run_event 11 readable one_event (unregister_event true 5 (some 11) one_event).1
        ≡ dispatch 11 false one_event)
unfolding find
unregister-silent_example =
    unregister-silent true 5 11 one_event readable one_event refl start start
