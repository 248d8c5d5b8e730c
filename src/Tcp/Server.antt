-- ===== src/Tcp/Server.antt =====
-- `TcpServer` of src/tcpserver/tcpserver.h and src/tcpserver/tcpserver.cc on the loop that accepts, and
-- `Scheduler` of src/tcpserver/scheduler.h and src/tcpserver/scheduler.cc. A loop is its index in `loops_`.
pub mod Turns
use restful_cweb.Prelude.{
  ℕ, zero, suc, ◌+◌, ◌%◌, Bool, true, false, List, [], ◌∷◌, ◌++◌, Bytes, Dict, assign, bytes_eq,
  Option, none, some, if◌then◌else◌, ℤ, pos, negsuc, increment,
}

pub record Scheduler : Type 0 where
  pub next : ℤ
  pub threadcnt : ℕ

abbrev pub new_scheduler : ℕ → Scheduler
new_scheduler threadcnt = record { next = negsuc 0; threadcnt = threadcnt }

-- `next_ %= threadcnt_` and the read at `next_`: `none` is a division by zero or a read out of
-- bounds.
abbrev pub take_loop : ℤ → ℕ → Option (ℕ × Scheduler)
take_loop n zero = none
take_loop (negsuc m) (suc c) = none
take_loop (pos m) (suc c) = some (m % suc c, record { next = pos (m % suc c); threadcnt = suc c })

unfoldable pub get_next_loop : Scheduler → Option (ℕ × Scheduler)
get_next_loop s = take_loop (increment s.next) s.threadcnt

-- `established` are the connections whose `connectEstablished` went to a loop as a task, with the
-- loop; `tasks` are those that wait on the accepting loop to be removed.
pub record Server : Type 0 where
  pub scheduler : Scheduler
  pub living_connections : Dict ℕ
  pub established : List (Bytes × ℕ)
  pub tasks : List Bytes

abbrev pub new_server : ℕ → Server
new_server threadcnt = record {
  scheduler = new_scheduler threadcnt;
  living_connections = [];
  established = [];
  tasks = [];
}

abbrev pub add_connection : Bytes → Server → Option (ℕ × Scheduler) → Option Server
add_connection id s none = none
add_connection id s (some (loop, scheduler)) = some (record s {
  scheduler = scheduler;
  living_connections = assign id loop s.living_connections;
  established = s.established ++ (id, loop) ∷ [];
})

-- `handleAccept`; the accept fails, or there is a connection and the identifier drawn for it.
unfoldable pub handle_accept : Option Bytes → Server → Option Server
unfolding get_next_loop
handle_accept none s = some s
handle_accept (some id) s = add_connection id s (get_next_loop s.scheduler)

-- `erase`.
unfoldable pub erase : Bytes → Dict ℕ → Dict ℕ
erase id [] = []
erase id ((j, v) ∷ d) = let rest = erase id d in if bytes_eq j id then rest else (j, v) ∷ rest

abbrev pub handle_connection_close : Bytes → Server → Server
handle_connection_close id s = record s { tasks = s.tasks ++ id ∷ [] }

unfoldable pub remove_connection_in_loop : Bytes → Server → Server
unfolding erase
remove_connection_in_loop id s = record s { living_connections = erase id s.living_connections }

-- What the server meets: an accept, the close of a connection, and a task of its loop.
pub data Call : Type 0 where
  accept : Option Bytes → Call
  close : Bytes → Call
  task : Call

abbrev pub first_task : List Bytes → Server → Server
unfolding remove_connection_in_loop
first_task [] s = s
first_task (id ∷ ids) s = remove_connection_in_loop id (record s { tasks = ids })

abbrev pub call : Call → Server → Option Server
unfolding handle_accept
call (accept a) s = handle_accept a s
call (close id) s = some (handle_connection_close id s)
call task s = some (first_task s.tasks s)

abbrev pub after_call : (Server → Option Server) → Option Server → Option Server
after_call k none = none
after_call k (some s) = k s

unfoldable pub calls : List Call → Server → Option Server
unfolding handle_accept remove_connection_in_loop
calls [] s = some s
calls (c ∷ cs) s = after_call (calls cs) (call c s)
