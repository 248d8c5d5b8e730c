-- ===== src/Tcp/Event.antt =====
-- The flags of `Event` of src/tcpserver/event.cc, for a loop with a `PollPoller`: each change goes on
-- to the poller at once.
pub mod Flags
use restful_cweb.Prelude.{ℕ, ◌+◌, ◌-◌, ◌/◌, ◌%◌, ◌==◌, if◌then◌else◌, Bool, Option, update}
use restful_cweb.Tcp.Poller.{Poller, update_event}

-- A flag, which is a power of two, of the flags `e`; `e | b`, and `e & ~b`.
abbrev pub has_flag : ℕ → ℕ → Bool
has_flag b e = e / b % 2 == 1

abbrev pub add_flag : ℕ → ℕ → ℕ
add_flag b e = if has_flag b e then e else e + b

abbrev pub drop_flag : ℕ → ℕ → ℕ
drop_flag b e = if has_flag b e then e - b else e

abbrev pub read_event : ℕ
read_event = 1

abbrev pub write_event : ℕ
write_event = 4

-- The calls that change the flags: EnableReading, EnableWriting, DisableReading, DisableWriting and
-- DisableAll.
pub data Change : Type 0 where
  reading_on : Change
  writing_on : Change
  reading_off : Change
  writing_off : Change
  all_off : Change

unfoldable pub changed : Change → ℕ → ℕ
changed reading_on e = add_flag read_event e
changed writing_on e = add_flag write_event e
changed reading_off e = drop_flag read_event e
changed writing_off e = drop_flag write_event e
changed all_off e = 0

abbrev pub set_events : ℕ → ℕ → Poller → Poller
set_events a e p = record p { event = update p.event a (record (p.event a) { events = e }) }

unfoldable pub change : Change → ℕ → Poller → Option Poller
unfolding changed
change c a p = update_event a (set_events a (changed c (p.event a).events) p)
