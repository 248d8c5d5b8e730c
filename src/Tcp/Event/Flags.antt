-- ===== src/Tcp/Event/Flags.antt =====
-- What the poller watches an event for after a change of its flags.
use mathlib.Core.Path.{subst}
use restful_cweb.Prelude.{
  ℕ, ◌≡◌, refl, ap, ◌∙◌, List, [], ◌∷◌, arith, Bool, true, false, some, none, ◌⊎◌, inl, inr, negsuc,
  update, update_self,
}
use restful_cweb.Tcp.Poller.{PollFd, Poller, to_short}
use restful_cweb.Tcp.Poller.Watching.{Watched, IsWatching, update-cases}
use restful_cweb.Tcp.Poller.Ready.{ArePolled}
use restful_cweb.Tcp.Poller.Polling.{polled-IsWatching}
use restful_cweb.Tcp.Poller.Update.{with_event, update_event-IsWatching}
use restful_cweb.Tcp.Event.{
  has_flag, read_event, write_event, Change, reading_on, writing_on, reading_off, writing_off,
  all_off, changed, set_events, change,
}

-- What the calls are for.
abbrev pub reads : Change → Bool → Bool
reads reading_on b = true
reads reading_off b = false
reads all_off b = false
reads c b = b

abbrev pub writes : Change → Bool → Bool
writes writing_on b = true
writes writing_off b = false
writes all_off b = false
writes c b = b

changed-reads :
    (c : Change) (e : ℕ) → has_flag read_event (changed c e) ≡ reads c (has_flag read_event e)
unfolding changed
changed-reads reading_on e = ground arith
changed-reads writing_on e = ground arith
changed-reads reading_off e = ground arith
changed-reads writing_off e = ground arith
changed-reads all_off e = refl

changed-writes :
    (c : Change) (e : ℕ) → has_flag write_event (changed c e) ≡ writes c (has_flag write_event e)
unfolding changed
changed-writes reading_on e = ground arith
changed-writes writing_on e = ground arith
changed-writes reading_off e = ground arith
changed-writes writing_off e = ground arith
changed-writes all_off e = refl

ArePolled-same : (xs : List PollFd) → ArePolled xs xs
ArePolled-same [] = tt
ArePolled-same (x ∷ xs) = (refl, refl, ArePolled-same xs)

module _ (p : Poller) (a e : ℕ) where
  -- A change of the flags changes neither a descriptor nor an index.
  set_events-fields :
      (b : ℕ)
      → (((set_events a e p).event b).fd ≡ (p.event b).fd)
        × (((set_events a e p).event b).index ≡ (p.event b).index)
  set_events-fields b = elim (update-cases p.event a (record (p.event a) { events = e }) b) [
    | inl (same, new) ↦ (
      ap (λ z. z.fd) new ∙ ap (λ z. (p.event z).fd) same,
      ap (λ z. z.index) new ∙ ap (λ z. (p.event z).index) same,
    )
    | inr (away, old) ↦ (ap (λ z. z.fd) old, ap (λ z. z.index) old)
  ]

  set_events-IsWatching : (w : Watched) → IsWatching p w → IsWatching (set_events a e p) w
  set_events-IsWatching w q =
      polled-IsWatching p w p.pollfds (set_events a e p).event q (ArePolled-same p.pollfds)
        set_events-fields

  -- What is watched then, by the fields before.
  with_event-set_events :
      (w : Watched)
      → with_event (set_events a e p) a w ≡ update w (p.event a).fd (some (a, to_short e))
  with_event-set_events w =
      let self = update_self p.event a (record (p.event a) { events = e }) in
      ap (λ z. update w z.fd (some (a, to_short z.events))) self

-- The calls that enable or disable reading or writing, of an event that is new, while no event is
-- watched for its descriptor, or that is watched: the poller then watches the event for its flags
-- after the change, and every other descriptor as before; and the flag for reading and the one for
-- writing are what the call is for, the other one as it was.
pub change-IsWatching :
    (c : Change) (p : Poller) (w : Watched) (a : ℕ)
    → IsWatching p w
    → (((p.event a).index ≡ negsuc 0) × (w (p.event a).fd ≡ none))
      ⊎ ((e : ℕ) × (w (p.event a).fd ≡ some (a, e)))
    → (t : Poller) × (change c a p ≡ some t)
      × IsWatching t (update w (p.event a).fd (some (a, to_short (changed c (p.event a).events))))
      × (has_flag read_event (changed c (p.event a).events)
          ≡ reads c (has_flag read_event (p.event a).events))
      × (has_flag write_event (changed c (p.event a).events)
          ≡ writes c (has_flag write_event (p.event a).events))
unfolding change
change-IsWatching c p w a q h =
    let e = (p.event a).events in
    let new = changed c e in
    let (fd, index) = set_events-fields p a new a in
    let (t, done, k) =
      update_event-IsWatching (set_events a new p) w a (set_events-IsWatching p a new w q) (elim h [
        | inl (fresh, free) ↦ inl (index ∙ fresh, ap w fd ∙ free)
        | inr (f, watched) ↦ inr (f, ap w fd ∙ watched)
      ]) in
    (
      t,
      done,
      subst (IsWatching t) (with_event-set_events p a new w) k,
      changed-reads c e,
      changed-writes c e,
    )
