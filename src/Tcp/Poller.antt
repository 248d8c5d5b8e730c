-- ===== src/Tcp/Poller.antt =====
-- `PollPoller` of src/tcpserver/poll/poll_poller.cc, with the fields of `Event` that it uses, of
-- src/tcpserver/event.h. The objects `Event` are in a store under their addresses, and
-- descriptors are numbers, those of open files, so that the negative ones of `RemoveEvent` do not
-- occur. Flags are 16 bits. The system call `poll` is an argument. `none` is an access out of
-- bounds or through the null pointer.
pub mod Entries
pub mod Watching
pub mod Removal
pub mod Update
pub mod Ready
pub mod Polling
use restful_cweb.Prelude.{
  ℕ, zero, suc, ◌+◌, ◌-◌, ◌^◌, ◌%◌, Option, none, some, ◌==◌, ltb, ◌&&◌, if◌then◌else◌, List, [],
  ◌∷◌, ◌++◌, length, get_elem?, set, take, update, ℤ, pos, negsuc, Bool,
}

pub record Event : Type 0 where
  pub fd : ℕ
  pub events : ℕ
  pub revents : ℕ
  pub index : ℤ

pub record PollFd : Type 0 where
  pub fd : ℕ
  pub events : ℕ
  pub revents : ℕ

pub record Poller : Type 0 where
  pub pollfds : List PollFd
  pub events_map : ℕ → Option ℕ
  pub event : ℕ → Event

-- `static_cast<short>`, by the bits.
abbrev pub to_short : ℕ → ℕ
to_short e = e % 2 ^ 16

abbrev pub new_pollfd : Event → PollFd
new_pollfd e = record { fd = e.fd; events = to_short e.events; revents = 0 }

-- `UpdateEvent` of an event without an index: by what the map has for its descriptor.
abbrev pub register : Option ℕ → ℕ → Poller → Poller
register (some b) a p = p
register none a p = record {
  pollfds = p.pollfds ++ new_pollfd (p.event a) ∷ [];
  events_map = update p.events_map (p.event a).fd (some a);
  event = update p.event a (record (p.event a) { index = pos (length p.pollfds) });
}

-- The same of one that has an index: by what the map has, and by the entry of that index.
abbrev pub change_events : Option ℕ → Option PollFd → ℕ → ℕ → Poller → Option Poller
change_events none x i a p = some p
change_events (some b) none i a p = none
change_events (some b) (some x) i a p = some (record p {
  pollfds = set p.pollfds i (record x { events = to_short (p.event a).events; revents = 0 });
})

abbrev pub update_at : ℤ → ℕ → Poller → Option Poller
update_at (negsuc n) a p = some (register (p.events_map (p.event a).fd) a p)
update_at (pos i) a p = change_events (p.events_map (p.event a).fd) (get_elem? p.pollfds i) i a p

unfoldable pub update_event : ℕ → Poller → Option Poller
update_event a p = update_at (p.event a).index a p

-- The last entry moves to the index: by the event that the map has for its descriptor.
abbrev pub move_last : Option ℕ → PollFd → ℕ → Poller → Option Poller
move_last none x i p = none
move_last (some b) x i p = some (record p {
  pollfds = take (length p.pollfds - 1) (set p.pollfds i x);
  event = update p.event b (record (p.event b) { index = pos i });
})

abbrev pub swap_out : Option PollFd → ℕ → Poller → Option Poller
swap_out none i p = none
swap_out (some x) i p = move_last (p.events_map x.fd) x i p

abbrev pub take_out : ℕ → Poller → Option Poller
take_out i p =
    if i == length p.pollfds - 1
    then some (record p { pollfds = take (length p.pollfds - 1) p.pollfds })
    else swap_out (get_elem? p.pollfds (length p.pollfds - 1)) i p

abbrev pub remove_at : ℤ → ℕ → Poller → Option Poller
remove_at (negsuc n) a p = some p
remove_at (pos i) a p =
    if ltb i (length p.pollfds)
    then take_out i (record p { events_map = update p.events_map (p.event a).fd none })
    else some p

unfoldable pub remove_event : ℕ → Poller → Option Poller
remove_event a p = remove_at (p.event a).index a p

-- An entry that `poll` has marked, by what the map has for its descriptor: the events that are
-- active already, with the store.
abbrev pub activate : Option ℕ → PollFd → List ℕ × (ℕ → Event) → List ℕ × (ℕ → Event)
activate none x r = r
activate (some a) x (active, es) =
    (active ++ a ∷ [], update es a (record (es a) { revents = x.revents }))

abbrev pub is_marked : PollFd → Bool
is_marked x = ltb 0 x.revents && ltb x.revents (2 ^ 15)

-- The loop of `Poll`, with the number of entries that are left to find.
unfoldable pub poll_loop :
    (ℕ → Option ℕ) → ℕ → List PollFd → List ℕ × (ℕ → Event) → List ℕ × (ℕ → Event)
poll_loop m zero xs r = r
poll_loop m (suc n) [] r = r
poll_loop m (suc n) (x ∷ xs) r =
    if is_marked x then poll_loop m n xs (activate (m x.fd) x r) else poll_loop m (suc n) xs r

-- `Poll`: the call's result and the entries as it leaves them, then the active events.
abbrev pub after_poll : ℤ × List PollFd → Poller → List ℕ × Poller
after_poll (negsuc n, xs) p = ([], record p { pollfds = xs })
after_poll (pos n, xs) p =
    let (active, es) = poll_loop p.events_map n xs ([], p.event) in
    (active, record p { pollfds = xs; event = es })

unfoldable pub poll_events : (List PollFd → ℤ × List PollFd) → Poller → List ℕ × Poller
unfolding poll_loop
poll_events system p = after_poll (system p.pollfds) p
