-- ===== src/Tcp/EventLoop/Wakeup.antt =====
-- Tasks of other threads: none is lost, and the loop does not sleep on one.
use mathlib.Core.Path.{subst}
use restful_cweb.Prelude.{
  ℕ, ◌+◌, ◌≤◌, ◌<◌, ◌≡◌, refl, sym, ap, ◌∙◌, Bool, true, false, List, [], ◌∷◌, ◌++◌, length,
  length-append, append_assoc, append-nil, if◌then◌else◌, arith,
}
use restful_cweb.Tcp.EventLoop.{
  Phase, testing, polling, polled, events_handled, running_tasks, tasks_handled, left, EventLoop,
  handle_active_events, OtherStep, queues, writes, stops, wakes, LoopStep, at_once, tests, polls,
  times_out, handles, swaps, runs, ends_tasks, ends_turn, Reach, start, other, own,
}

-- The tasks in the hand of `handleTasks`.
abbrev pub in_hand : Phase → List ℕ
in_hand (running_tasks ts) = ts
in_hand testing = []
in_hand polling = []
in_hand (polled r) = []
in_hand events_handled = []
in_hand tasks_handled = []
in_hand left = []

-- One task more than bytes is there while a thread has yet to write its byte, and while the byte
-- just read stands for tasks that are still to be taken.
abbrev slack : Bool → ℕ
slack true = 1
slack false = 0

abbrev phase_slack : Phase → ℕ
phase_slack events_handled = 1
phase_slack testing = 0
phase_slack polling = 0
phase_slack (polled r) = 0
phase_slack (running_tasks ts) = 0
phase_slack tasks_handled = 0
phase_slack left = 0

-- A poll that reports no byte has seen none, and a byte that it reports is there.
abbrev Seen : Phase → ℕ → Type 0
Seen (polled true) bytes = 0 < bytes
Seen (polled false) bytes = 0 ≤ bytes
Seen testing bytes = 0 ≤ bytes
Seen polling bytes = 0 ≤ bytes
Seen events_handled bytes = 0 ≤ bytes
Seen (running_tasks ts) bytes = 0 ≤ bytes
Seen tasks_handled bytes = 0 ≤ bytes
Seen left bytes = 0 ≤ bytes

pub record Inv (l : EventLoop) : Type 0 where
  pub order : l.added ≡ l.ran ++ (in_hand l.phase ++ l.tasks)
  pub awake : length l.tasks ≤ l.bytes + (slack l.locked + phase_slack l.phase)
  pub seen : Seen l.phase l.bytes

Seen-more : (p : Phase) (n m : ℕ) → n ≤ m → Seen p n → Seen p m
Seen-more (polled true) n m h s = omega arith
Seen-more (polled false) n m h s = omega arith
Seen-more testing n m h s = omega arith
Seen-more polling n m h s = omega arith
Seen-more events_handled n m h s = omega arith
Seen-more (running_tasks ts) n m h s = omega arith
Seen-more tasks_handled n m h s = omega arith
Seen-more left n m h s = omega arith

append_at_end : (r h ts : List ℕ) (t : ℕ) → (r ++ (h ++ ts)) ++ t ∷ [] ≡ r ++ (h ++ (ts ++ t ∷ []))
append_at_end r h ts t = simp append_assoc

-- A step to another phase with the same tasks in hand.
to_phase :
    (l : EventLoop) (p : Phase)
    → Inv l
    → in_hand p ≡ in_hand l.phase
    → phase_slack l.phase ≤ phase_slack p
    → Seen p l.bytes
    → Inv (record l { phase = p })
to_phase l p v same more s = record {
  order = v.order ∙ ap (λ h. l.ran ++ (h ++ l.tasks)) (sym same);
  awake = omega (arith, v.awake);
  seen = s;
}

test_running-Inv :
    (b : Bool) (l : EventLoop)
    → Inv l
    → l.phase ≡ testing
    → Inv (record l { phase = if b then polling else left })
test_running-Inv true l v e =
    to_phase l polling v (sym (ap in_hand e)) (omega (arith, ap phase_slack e)) (omega arith)
test_running-Inv false l v e =
    to_phase l left v (sym (ap in_hand e)) (omega (arith, ap phase_slack e)) (omega arith)

handle-Inv :
    (r : Bool) (l : EventLoop) → Inv l → l.phase ≡ polled r → Inv (handle_active_events r l)
handle-Inv false l v e =
    to_phase l events_handled v (sym (ap in_hand e)) (omega (arith, ap phase_slack e)) (omega arith)
handle-Inv true l v e =
    let some_byte : 0 < l.bytes = subst (λ p. Seen p l.bytes) e v.seen in
    record {
      order = v.order ∙ ap (λ h. l.ran ++ (h ++ l.tasks)) (ap in_hand e);
      awake = omega (arith, v.awake, ap phase_slack e);
      seen = omega arith;
    }

other-Inv : {l k : EventLoop} → Inv l → OtherStep l k → Inv k
other-Inv v (queues {l = l} t e) = record {
  order = ap (λ ts. ts ++ t ∷ []) v.order ∙ append_at_end l.ran (in_hand l.phase) l.tasks t;
  awake = omega (arith, v.awake, length-append l.tasks (t ∷ []), ap slack e);
  seen = v.seen;
}
other-Inv v (writes {l = l} e) = record {
  order = v.order;
  awake = omega (arith, v.awake, ap slack e);
  seen = Seen-more l.phase l.bytes (l.bytes + 1) (omega arith) v.seen;
}
other-Inv v stops = record { order = v.order; awake = v.awake; seen = v.seen }
other-Inv v (wakes {l = l}) = record {
  order = v.order;
  awake = omega (arith, v.awake);
  seen = Seen-more l.phase l.bytes (l.bytes + 1) (omega arith) v.seen;
}

own-Inv : {l k : EventLoop} → Inv l → LoopStep l k → Inv k
own-Inv v (at_once t) = record { order = v.order; awake = v.awake; seen = v.seen }
own-Inv v (tests {l = l} e) = test_running-Inv l.running l v e
own-Inv v (polls {l = l} e some_byte) =
    to_phase l (polled true) v (sym (ap in_hand e)) (omega (arith, ap phase_slack e)) some_byte
own-Inv v (times_out {l = l} e none_there) =
    to_phase l (polled false) v (sym (ap in_hand e)) (omega (arith, ap phase_slack e)) (omega arith)
own-Inv v (handles {l = l} r e) = handle-Inv r l v e
own-Inv v (swaps {l = l} e free) = record {
  order =
      v.order
      ∙ ap (λ h. l.ran ++ (h ++ l.tasks)) (ap in_hand e)
      ∙ ap (λ ts. l.ran ++ ts) (sym (append-nil l.tasks));
  awake = omega arith;
  seen = omega arith;
}
own-Inv v (runs {l = l} t ts e) = record {
  order =
      v.order
      ∙ ap (λ h. l.ran ++ (h ++ l.tasks)) (ap in_hand e)
      ∙ sym (append_assoc l.ran (t ∷ []) (ts ++ l.tasks));
  awake = omega (arith, v.awake, ap phase_slack e);
  seen = omega arith;
}
own-Inv v (ends_tasks {l = l} e) =
    to_phase l tasks_handled v (sym (ap in_hand e)) (omega (arith, ap phase_slack e)) (omega arith)
own-Inv v (ends_turn {l = l} e) =
    to_phase l testing v (sym (ap in_hand e)) (omega (arith, ap phase_slack e)) (omega arith)

reach-Inv : {l : EventLoop} → Reach l → Inv l
reach-Inv start = record { order = refl; awake = omega arith; seen = omega arith }
reach-Inv (other r s) = other-Inv (reach-Inv r) s
reach-Inv (own r s) = own-Inv (reach-Inv r) s

-- However the steps of the threads are interleaved, the tasks that other threads queued with
-- `AddTask` are those that ran, those that `handleTasks` has in hand and those still queued, in the
-- order they were queued in.
pub reach-order : {l : EventLoop} → Reach l → l.added ≡ l.ran ++ (in_hand l.phase ++ l.tasks)
reach-order r = (reach-Inv r).order
