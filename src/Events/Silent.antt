-- ===== src/Events/Silent.antt =====
-- A removed registration starts no callback.
use light_rpc.Prelude.{
  mem, ℕ, ◌≡◌, refl, ap, ap₂, ◌∙◌, Bool, true, false, not, ◌||◌, [], ◌++◌, Option, none, some, ◌==◌,
  append-nil, if◌then◌else◌, if_true, if_false, if_both, find, arith,
}
use light_rpc.Events.{
  EventDispatcher, EpollEvents, add_source, register_event, remove_source, unregister_event, call,
  dispatch, run_event,
}
use light_rpc.Events.Registered.{Step, registers, unregisters, closes, Reach, start, after}

or_true : (b : Bool) {c : Bool} → c ≡ true → (b || c) ≡ true
or_true true e = refl
or_true false e = e

-- Ids stay failed.
add-failed :
    (x : ℕ) (o : Option ℕ) (added : Bool) (fd id : ℕ) (r : Option ℕ) (d : EventDispatcher)
    → mem x d.failed ≡ true
    → mem x (add_source o added fd id r d).2.failed ≡ true
add-failed x (some other) added fd id r d h = or_true (id == x) h
add-failed x none true fd id r d h = h
add-failed x none false fd id r d h = or_true (id == x) h

remove-failed :
    (x : ℕ) (o : Option ℕ) (deleted : Bool) (fd id : ℕ) (d : EventDispatcher)
    → mem x d.failed ≡ true
    → mem x (remove_source o deleted fd id d).1.failed ≡ true
remove-failed x none deleted fd id d h = h
remove-failed x (some y) deleted fd id d h =
    if_both (λ (w : Bool × EventDispatcher). mem x w.1.failed ≡ true) (not (y == id)) _ _ h
      (or_true (id == x) h)

Step-failed :
    {d e : EventDispatcher} (x : ℕ) → Step d e → mem x d.failed ≡ true → mem x e.failed ≡ true
unfolding register_event unregister_event
Step-failed {d} x (registers id added fd r new) h =
    add-failed x (find fd d.fd_map) added fd id r d h
Step-failed {d} x (unregisters deleted fd none) h = h
Step-failed {d} x (unregisters deleted fd (some id)) h =
    remove-failed x (find fd d.fd_map) deleted fd id d h
Step-failed {d} x (closes fd) h = h

Reach-failed :
    {d e : EventDispatcher} (x : ℕ) → Reach d e → mem x d.failed ≡ true → mem x e.failed ≡ true
Reach-failed x start h = h
Reach-failed x (after r s) h = Step-failed x s (Reach-failed x r h)

removed_failed :
    (deleted : Bool) (fd id : ℕ) (d : EventDispatcher)
    → find fd d.fd_map ≡ some id
    → mem id (unregister_event deleted fd (some id) d).1.failed ≡ true
unfolding unregister_event
removed_failed deleted fd id d e =
    let same : (id == id) ≡ true = ground arith in
    ap (λ o. mem id (remove_source o deleted fd id d).1.failed) e
    ∙ ap (λ (w : Bool × EventDispatcher). mem id w.1.failed) (if_false _ _ (ap not same))
    ∙ ap (λ b. b || mem id d.failed) same

silent :
    (id : ℕ) (output : Bool) (d : EventDispatcher)
    → mem id d.failed ≡ true
    → dispatch id output d ≡ []
unfolding dispatch
silent id output d h = ap (call output) (if_true _ _ h)

-- Once a registration is removed by its own id, whatever epoll_ctl answers, and in any later state of the
-- dispatcher, also where its descriptor is registered anew: an event that is addressed then starts no
-- callback; and of one whose first callback was addressed before, in a state `c`, and its second one after,
-- at most the first runs, which the removal does not stop.
pub unregister-silent :
    (deleted : Bool) (fd id : ℕ) (d : EventDispatcher) {e f : EventDispatcher} (ev : EpollEvents)
    (c : EventDispatcher)
    → find fd d.fd_map ≡ some id
    → Reach (unregister_event deleted fd (some id) d).1 e
    → Reach e f
    → (run_event id ev e f ≡ [])
      × (run_event id ev c f
          ≡ (if ev.epollin || (ev.epollerr || ev.epollhup) then dispatch id false c else []))
unfolding run_event
unregister-silent deleted fd id d {e} {f} ev c there r s =
    let gone = Reach-failed id r (removed_failed deleted fd id d there) in
    let first = silent id false e gone in
    let second =
      if_both (λ l. l ≡ []) (ev.epollout || (ev.epollerr || ev.epollhup)) _ _
        (silent id true f (Reach-failed id s gone)) refl in
    (
      ap₂ ◌++◌ (if_both (λ l. l ≡ []) (ev.epollin || (ev.epollerr || ev.epollhup)) _ _ first refl)
          second,
      ap
            (λ l.
              (if ev.epollin || (ev.epollerr || ev.epollhup) then dispatch id false c else []) ++ l)
            second
          ∙ append-nil _,
    )
