-- ===== src/Connections.antt =====
-- The endpoints of a server and its shutdown (src-endpoint/fast_server.cc, inc/fast_server.h): AddEndpoint,
-- OnEndpointRecycled and Close, which runs as steps that end where it takes or gives up a lock or waits;
-- the accept callback is the loop of OnServerAccept (src-endpoint/fast_rdma_endpoint.cc). The calls of
-- the kernel succeed. `failed` has the ids that SetFailed was called for. `starting` is that BuildAndStart is
-- between its two steps, `watched` that the event
-- dispatcher takes events of the listener, `accepting` that its callback runs.
pub mod Closed
pub mod Returns
mod Tests
use light_rpc.Prelude.{
  mem, ℕ, Bool, true, false, not, ◌&&◌, ◌||◌, List, [], ◌∷◌, Option, none, some, ◌==◌,
  if◌then◌else◌,
}

-- How far Close has come, with the ids that it has still to fail.
pub data Closing : Type 0 where
  idle : Closing
  stopping_set : Closing
  listener_wait : Closing
  unlistened : Closing
  large_closed : Closing
  failing : List ℕ → Closing
  endpoints_wait : Closing
  returned : Closing

-- `added` is the endpoint that AddEndpoint has entered, with what it read of `stopping_`.
pub record FastServer : Type 0 where
  pub endpoints : List ℕ
  pub stopping : Bool
  pub listening : Bool
  pub listener_recycled : Bool
  pub closed : Bool
  pub failed : List ℕ
  pub starting : Bool
  pub watched : Bool
  pub accepting : Bool
  pub added : Option (ℕ × Bool)
  pub closing : Closing

abbrev pub new_server : FastServer
new_server = record {
  endpoints = [];
  stopping = false;
  listening = false;
  listener_recycled = true;
  closed = false;
  failed = [];
  starting = false;
  watched = false;
  accepting = false;
  added = none;
  closing = idle;
}

abbrev pub remove : ℕ → List ℕ → List ℕ
remove id [] = []
remove id (x ∷ xs) = let rest = remove id xs in if x == id then rest else x ∷ rest

-- BuildAndStart: under the lock, and then RegisterEvent. The code takes it for granted that it is called
-- once and has returned before Close is called.
unfoldable pub prepare_listener : FastServer → FastServer
prepare_listener s = record s { listening = true; listener_recycled = false; starting = true }

unfoldable pub register_listener : FastServer → FastServer
register_listener s = record s { watched = true; starting = false }

-- Whether a call of Close would come too early.
abbrev pub is_idle : Closing → Bool
is_idle idle = true
is_idle stopping_set = false
is_idle listener_wait = false
is_idle unlistened = false
is_idle large_closed = false
is_idle (failing ids) = false
is_idle endpoints_wait = false
is_idle returned = false

abbrev pub is_early : FastServer → Bool
is_early s = is_idle s.closing && s.starting

-- The callback given to RegisterEvent, when the last reference to the registration goes.
unfoldable pub listener_gone : FastServer → FastServer
listener_gone s = record s { listener_recycled = true }

-- AddEndpoint under the lock.
unfoldable pub add_endpoint : ℕ → FastServer → FastServer
add_endpoint id s = record s {
  endpoints = id ∷ remove id s.endpoints;
  added = some (id, s.stopping);
}

abbrev pub set_endpoint_failed : ℕ → FastServer → FastServer
set_endpoint_failed id s = record s { failed = id ∷ s.failed }

-- The rest of AddEndpoint, after which the accept loop goes on, or returns where the endpoint failed.
unfoldable pub after_lock : ℕ → Bool → FastServer → FastServer
after_lock id false s = record s { added = none }
after_lock id true s = record (set_endpoint_failed id s) { added = none; accepting = false }

unfoldable pub on_endpoint_recycled : ℕ → FastServer → FastServer
on_endpoint_recycled id s = record s { endpoints = remove id s.endpoints }

abbrev pub no_endpoints : List ℕ → Bool
no_endpoints [] = true
no_endpoints (x ∷ xs) = false

-- The next step of Close; none where it waits or has returned.
abbrev pub close_from : Closing → FastServer → Option FastServer
close_from idle s = some (record s { stopping = true; closing = stopping_set })
close_from stopping_set s =
    if s.listening
    then some (record s { watched = false; closing = listener_wait })
    else some (record s { closing = unlistened })
close_from listener_wait s =
    if s.listener_recycled
    then some (record s { listening = false; closing = unlistened })
    else none
close_from unlistened s = some (record s { closed = true; closing = large_closed })
close_from large_closed s = some (record s { closing = failing s.endpoints })
close_from (failing []) s = some (record s { closing = endpoints_wait })
close_from (failing (id ∷ ids)) s =
    some (record (set_endpoint_failed id s) { closing = failing ids })
close_from endpoints_wait s =
    if no_endpoints s.endpoints then some (record s { closing = returned }) else none
close_from returned s = none

unfoldable pub close : FastServer → Option FastServer
close s = close_from s.closing s
