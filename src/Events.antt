-- ===== src/Events.antt =====
-- The registrations of the event dispatcher (src-endpoint/event_dispatcher.cc, inc/event_dispatcher.h). The
-- id that IOEventData::Create gives and what epoll_ctl answers are arguments; `none` stands for
-- INVALID_REGISTRATION. `sources` is what the kernel watches: an entry leaves it by EPOLL_CTL_DEL, or
-- where the descriptor is closed. `failed` has the ids that SetFailedById was called for.
mod Entries
pub mod Registered
pub mod Silent
mod Tests
use light_rpc.Prelude.{
  mem, ℕ, Bool, true, false, not, ◌||◌, List, [], ◌∷◌, ◌++◌, Option, none, some, ◌==◌,
  if◌then◌else◌, find, erase, insert,
}

-- The bits that the code tests.
pub record EpollEvents : Type 0 where
  pub epollin : Bool
  pub epollout : Bool
  pub epollerr : Bool
  pub epollhup : Bool

pub record EventDispatcher : Type 0 where
  pub fd_map : List (ℕ × ℕ)
  pub sources : List (ℕ × ℕ)
  pub failed : List ℕ

abbrev pub set_failed_by_id : ℕ → EventDispatcher → EventDispatcher
set_failed_by_id id d = record d { failed = id ∷ d.failed }

-- Whether 0 is returned, the registration, and the dispatcher.
abbrev pub add_source :
    Option ℕ → Bool → ℕ → ℕ → Option ℕ → EventDispatcher → Bool × Option ℕ × EventDispatcher
add_source (some other) added fd id registration d = (false, registration, set_failed_by_id id d)
add_source none added fd id registration d =
    let published = record d { fd_map = insert fd id d.fd_map } in
    if added then (true, some id, record published { sources = insert fd id d.sources }) else (
      false,
      none,
      set_failed_by_id id (record published { fd_map = erase fd published.fd_map }),
    )

unfoldable pub register_event :
    Option ℕ → Bool → ℕ → Option ℕ → EventDispatcher → Bool × Option ℕ × EventDispatcher
register_event none added fd registration d = (false, registration, d)
register_event (some id) added fd registration d =
    add_source (find fd d.fd_map) added fd id registration d

abbrev pub remove_source : Option ℕ → Bool → ℕ → ℕ → EventDispatcher → Bool × EventDispatcher
remove_source none deleted fd registration d = (true, d)
remove_source (some id) deleted fd registration d =
    if not (id == registration) then (true, d) else (
      deleted,
      set_failed_by_id registration
          (record d { fd_map = erase fd d.fd_map; sources = erase fd d.sources }),
    )

unfoldable pub unregister_event : Bool → ℕ → Option ℕ → EventDispatcher → Bool × EventDispatcher
unregister_event deleted fd none d = (true, d)
unregister_event deleted fd (some registration) d =
    remove_source (find fd d.fd_map) deleted fd registration d

-- The destructor fails what is left, once the event thread is joined.
unfoldable pub destroy : EventDispatcher → List (ℕ × ℕ) → EventDispatcher
destroy d [] = d
destroy d ((fd, id) ∷ m) = destroy (set_failed_by_id id d) m

-- IOEventData::Address: the reference that it gives, none where the id has failed.
abbrev pub address : ℕ → EventDispatcher → Option ℕ
address id d = if mem id d.failed then none else some id

-- The callback runs to its end under that reference, whatever is removed meanwhile.
abbrev pub call : Bool → Option ℕ → List (ℕ × Bool)
call output none = []
call output (some id) = (id, output) ∷ []

-- The callbacks: of which id, and whether it is the output callback. `d` is the dispatcher when the
-- event is addressed.
unfoldable pub dispatch : ℕ → Bool → EventDispatcher → List (ℕ × Bool)
dispatch id output d = call output (address id d)

-- An event that RunEpollLoop takes, for a registration; `d` and `later` are the dispatcher when the
-- first and the second callback are addressed.
unfoldable pub run_event : ℕ → EpollEvents → EventDispatcher → EventDispatcher → List (ℕ × Bool)
unfolding dispatch
run_event id ev d later =
    (if ev.epollin || (ev.epollerr || ev.epollhup) then dispatch id false d else [])
    ++ (if ev.epollout || (ev.epollerr || ev.epollhup) then dispatch id true later else [])
