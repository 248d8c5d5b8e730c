-- ===== src/Tests/Pollers.antt =====
-- Tests of the model of src/tcpserver/poll.
use restful_cweb.Prelude.{
  ◌+◌, ◌≡◌, refl, List, [], ◌∷◌, arith, true, none, some, map, update, pos, negsuc, inl,
}
use restful_cweb.Tcp.Poller.{to_short, PollFd, Poller, register, remove_event, poll_events}
use restful_cweb.Tcp.Poller.Watching.{Watched, IsWatching, nothing-there}
use restful_cweb.Tcp.Poller.Update.{with_event, register-IsWatching}
use restful_cweb.Tcp.Event.{has_flag, read_event, write_event, writing_on, changed, change}
use restful_cweb.Tcp.Event.Flags.{change-IsWatching}
use restful_cweb.Tcp.Poller.Removal.{remove_event-IsWatching}
use restful_cweb.Tcp.Poller.Polling.{poll_events-ready, ready_events}

-- The event at address `a` has the descriptor `a + 10`.
abbrev idle : Poller
idle = record {
  pollfds = [];
  events_map = λ f. none;
  event = λ a. record { fd = a + 10; events = 1; revents = 0; index = negsuc 0 };
}

abbrev nothing : Watched
nothing f = none

idle-IsWatching : IsWatching idle nothing
idle-IsWatching = record {
  known = λ f. refl;
  placed = λ f a e h. absurd (nothing-there (a, e) h);
  listed = λ i x h. absurd (grind arith);
}

abbrev one_watched : Poller
one_watched = register none 1 idle

abbrev one_event : Watched
one_event = with_event idle 1 nothing

one-IsWatching : IsWatching one_watched one_event
one-IsWatching = register-IsWatching idle nothing 1 idle-IsWatching refl refl

change-IsWatching_example :
    (t : Poller) × (change writing_on 2 one_watched ≡ some t)
    × IsWatching t (update one_event 12 (some (2, to_short (changed writing_on 1))))
    × (has_flag read_event (changed writing_on 1) ≡ true)
    × (has_flag write_event (changed writing_on 1) ≡ true)
unfolding update
change-IsWatching_example =
    change-IsWatching writing_on one_watched one_event 2 one-IsWatching (inl (refl, refl))

abbrev two_watched : Poller
two_watched = register none 2 one_watched

abbrev two_events : Watched
two_events = with_event one_watched 2 one_event

two-IsWatching : IsWatching two_watched two_events
unfolding update
two-IsWatching = register-IsWatching one_watched one_event 2 one-IsWatching refl refl

remove_event-IsWatching_example :
    (t : Poller) × (remove_event 1 two_watched ≡ some t)
    × IsWatching t (update two_events (two_watched.event 1).fd none)
unfolding update
remove_event-IsWatching_example =
    remove_event-IsWatching two_watched two_events 1 1 two-IsWatching refl

-- The second descriptor is readable, and hung up.
abbrev polled : List PollFd
polled =
    record { fd = 11; events = 1; revents = 0 } ∷ record { fd = 12; events = 1; revents = 17 } ∷ []

poll_events-ready_example :
    (map
        (λ a. (a, ((poll_events (λ xs. (pos 1, polled)) two_watched).1.event a).revents))
        (poll_events (λ xs. (pos 1, polled)) two_watched).0
      ≡ ready_events two_events polled)
    × IsWatching (poll_events (λ xs. (pos 1, polled)) two_watched).1 two_events
unfolding update
poll_events-ready_example =
    poll_events-ready two_watched two_events (λ xs. (pos 1, polled)) 1 polled two-IsWatching refl
      (refl, refl, (refl, refl, tt)) refl
