-- ===== src/Connections/Returns.antt =====
-- Close is never stuck: what it waits for can happen.
use light_rpc.Prelude.{
  mem, ℕ, ◌≡◌, refl, sym, ap, subst, ◌∙◌, inl, inr, Bool, true, false, ◌&&◌, ◌||◌, List, [], ◌∷◌,
  Option, none, some, ◌==◌, ==_iff, if_true, if_false, not_both, Bool-cases, arith,
}
use light_rpc.Connections.{
  Closing, idle, stopping_set, listener_wait, unlistened, large_closed, failing, endpoints_wait,
  returned, FastServer, new_server, remove, listener_gone, register_listener, is_idle, is_early,
  after_lock, set_endpoint_failed, on_endpoint_recycled, no_endpoints, close, close_from,
}
use light_rpc.Connections.Closed.{
  Reach, IsFailing, IsAt, next-IsFailing, all_failed, mem-remove, Reach-IsClosing,
}

-- What does not depend on the peers: BuildAndStart returns, the accept callback that runs goes on and ends, the registration
-- of the listener goes, an endpoint that was failed is recycled, and Close goes on. No endpoint
-- fails on its own, and no connection is accepted.
pub data Own (s : FastServer) : FastServer → Type 0 where
  registers : s.starting ≡ true → Own s (register_listener s)
  goes_on : (id : ℕ) (b : Bool) → s.added ≡ some (id, b) → Own s (after_lock id b s)
  leaves : s.accepting ≡ true → s.added ≡ none → Own s (record s { accepting = false })
  unregistered :
      is_idle s.closing ≡ false → s.watched ≡ false → s.accepting ≡ false → Own s (listener_gone s)
  recycles : (id : ℕ) → mem id s.failed ≡ true → Own s (on_endpoint_recycled id s)
  closes : (t : FastServer) → is_early s ≡ false → close s ≡ some t → Own s t

pub data Run : FastServer → FastServer → Type 0 where
  here : {s : FastServer} → Run s s
  then_ : {s t u : FastServer} → Own s t → Run t u → Run s u

pub record CanReturn (s : FastServer) : Type 0 where
  pub last : FastServer
  pub run : Run s last
  pub done : last.closing ≡ returned

first : {s t : FastServer} → Own s t → CanReturn t → CanReturn s
first step c = record { last = c.last; run = then_ step c.run; done = c.done }

-- A step of Close from a phase that is known.
closes_at :
    {s t : FastServer} (c : Closing)
    → s.closing ≡ c
    → (is_idle c && s.starting) ≡ false
    → close_from c s ≡ some t
    → Own s t
unfolding close
closes_at {s} {t} c e late d =
    closes t (ap (λ c. is_idle c && s.starting) e ∙ late) (ap (λ c. close_from c s) e ∙ d)

removed_apart : (id j : ℕ) (xs : List ℕ) → mem j (remove id xs) ≡ true → (id == j) ≡ false
removed_apart id j [] m = absurd (not_both m refl)
removed_apart id j (x ∷ xs) m = ground (arith, removed_apart id j xs)

rest_mem :
    (id j : ℕ) (ids : List ℕ) → mem j (id ∷ ids) ≡ true → (id == j) ≡ false → mem j ids ≡ true
rest_mem id j ids m e = sym (ap (λ b. b || mem j ids) e) ∙ m

none_left : (xs : List ℕ) → ((j : ℕ) → mem j xs ≡ true → mem j [] ≡ true) → no_endpoints xs ≡ true
none_left [] h = refl
none_left (x ∷ xs) h = absurd (not_both (h x (ap (λ b. b || mem x xs) ((==_iff x x).1 refl))) refl)

recycled :
    (ids : List ℕ) (s : FastServer)
    → s.closing ≡ endpoints_wait
    → ((j : ℕ) → mem j s.endpoints ≡ true → mem j s.failed ≡ true)
    → ((j : ℕ) → mem j s.endpoints ≡ true → mem j ids ≡ true)
    → CanReturn s
unfolding on_endpoint_recycled
recycled [] s e f h =
    first (closes_at endpoints_wait e refl (if_true _ _ (none_left s.endpoints h)))
      (record { last = record s { closing = returned }; run = here; done = refl })
recycled (id ∷ ids) s e f h = elim (Bool-cases (mem id s.failed)) [
  | inl m ↦ first (recycles id m) (
      recycled ids (on_endpoint_recycled id s) e (λ j k. f j (mem-remove id j s.endpoints k))
        (λ j k.
          rest_mem id j ids (h j (mem-remove id j s.endpoints k))
            (removed_apart id j s.endpoints k)))
  | inr m ↦ recycled ids s e f (λ j k. elim (Bool-cases (id == j)) [
    | inl same ↦
        let now : id ≡ j = (==_iff id j).0 same in
        absurd (not_both (f j k) (subst (λ i. mem i s.failed ≡ false) now m))
    | inr other ↦ rest_mem id j ids (h j k) other
  ])
]

failed_left :
    (ids : List ℕ) (s : FastServer) → s.closing ≡ failing ids → IsFailing ids s → CanReturn s
failed_left [] s e v =
    first (closes_at (failing []) e refl refl) (
      recycled s.endpoints (record s { closing = endpoints_wait }) refl (all_failed s v) (λ j m. m))
failed_left (id ∷ ids) s e v = first (closes_at (failing (id ∷ ids)) e refl refl) (
    failed_left ids (record (set_endpoint_failed id s) { closing = failing ids }) refl
      (next-IsFailing id ids s v))

from_large : (s : FastServer) → s.closing ≡ large_closed → CanReturn s
from_large s e =
    first (closes_at large_closed e refl refl)
      (failed_left s.endpoints (record s { closing = failing s.endpoints }) refl (λ j m. inr m))

from_unlistened : (s : FastServer) → s.closing ≡ unlistened → CanReturn s
from_unlistened s e =
    first (closes_at unlistened e refl refl)
      (from_large (record s { closed = true; closing = large_closed }) refl)

from_recycled :
    (s : FastServer) → s.closing ≡ listener_wait → s.listener_recycled ≡ true → CanReturn s
from_recycled s e r =
    first (closes_at listener_wait e refl (if_true _ _ r))
      (from_unlistened (record s { listening = false; closing = unlistened }) refl)

-- No callback runs.
from_left :
    (s : FastServer)
    → s.closing ≡ listener_wait
    → s.watched ≡ false
    → s.accepting ≡ false
    → CanReturn s
unfolding listener_gone
from_left s e w a = first (unregistered (ap is_idle e) w a) (from_recycled (listener_gone s) e refl)

from_accepting :
    (s : FastServer) → s.closing ≡ listener_wait → s.watched ≡ false → s.added ≡ none → CanReturn s
from_accepting s e w n = elim (Bool-cases s.accepting) [
  | inl a ↦ first (leaves a n) (from_left (record s { accepting = false }) e w refl)
  | inr a ↦ from_left s e w a
]

from_added :
    (s : FastServer) (o : Option (ℕ × Bool))
    → s.added ≡ o
    → s.closing ≡ listener_wait
    → s.watched ≡ false
    → CanReturn s
unfolding after_lock
from_added s none n e w = from_accepting s e w n
from_added s (some (id, false)) n e w =
    first (goes_on id false n) (from_accepting (after_lock id false s) e w refl)
from_added s (some (id, true)) n e w =
    first (goes_on id true n) (from_accepting (after_lock id true s) e w refl)

from_stopping : (s : FastServer) → s.closing ≡ stopping_set → CanReturn s
from_stopping s e = elim (Bool-cases s.listening) [
  | inl l ↦
      first (closes_at stopping_set e refl (if_true _ _ l))
        (from_added (record s { watched = false; closing = listener_wait }) s.added refl refl refl)
  | inr l ↦
      first (closes_at stopping_set e refl (if_false _ _ l))
        (from_unlistened (record s { closing = unlistened }) refl)
]

from_idle : (s : FastServer) → s.closing ≡ idle → s.starting ≡ false → CanReturn s
from_idle s e b =
    first (closes_at idle e b refl)
      (from_stopping (record s { stopping = true; closing = stopping_set }) refl)

from_phase : (c : Closing) (s : FastServer) → s.closing ≡ c → IsAt c s → CanReturn s
unfolding register_listener
from_phase idle s e v = elim (Bool-cases s.starting) [
  | inl b ↦ first (registers b) (from_idle (register_listener s) e refl)
  | inr b ↦ from_idle s e b
]
from_phase stopping_set s e v = from_stopping s e
from_phase listener_wait s e v = from_added s s.added refl e v.0
from_phase unlistened s e v = from_unlistened s e
from_phase large_closed s e v = from_large s e
from_phase (failing ids) s e v = failed_left ids s e v.1
from_phase endpoints_wait s e v = recycled s.endpoints s e v.1 (λ j m. m)
from_phase returned s e v = record { last = s; run = here; done = e }

-- Whatever has happened to a server since its construction, BuildAndStart being called at most once and
-- before Close: without that any endpoint fails on its own or a connection is accepted, there is a run
-- in which Close returns. Its steps are those of Close, the end of BuildAndStart, the end of the accept callback, the end of
-- the listener's registration, and the recycling of endpoints that were failed before.
pub close_returns : {s : FastServer} → Reach new_server s → CanReturn s
close_returns {s} r = from_phase s.closing s refl (Reach-IsClosing r).at
