-- ===== src/Tcp/Poller/Polling.antt =====
-- `Poll`, of a poller that watches events.
use mathlib.Core.Path.{subst}
use mathlib.Core.Option.{some-injective}
use restful_cweb.Prelude.{
  ℕ, zero, suc, ◌≡◌, refl, sym, ap, ◌∙◌, List, [], ◌∷◌, arith, get_elem?, map, Option, none, some,
  inl, inr, ℤ, pos, if◌then◌else◌, Bool-cases, true, Option-cases,
}
use restful_cweb.Tcp.Poller.{Event, PollFd, Poller, is_marked, after_poll, poll_events}
use restful_cweb.Tcp.Poller.Watching.{Watched, IsWatching, address, place_of}
use restful_cweb.Tcp.Poller.Ready.{
  marked, ready, ArePolled, full_loop, poll_loop-full, full_loop-active, full_loop-fields,
  full_loop-revents,
}

-- The watched events whose entries are marked, in the order of the entries, each with its marks.
abbrev pub one_more : Option (ℕ × ℕ) → ℕ → List (ℕ × ℕ) → List (ℕ × ℕ)
one_more none r ys = ys
one_more (some (a, e)) r ys = (a, r) ∷ ys

abbrev pub ready_events : Watched → List PollFd → List (ℕ × ℕ)
ready_events w [] = []
ready_events w (x ∷ xs) =
    if is_marked x then one_more (w x.fd) x.revents (ready_events w xs) else ready_events w xs

-- Entries before the call and after it.
polled-there :
    (xs ys : List PollFd) (i : ℕ) (x : PollFd)
    → ArePolled xs ys
    → get_elem? xs i ≡ some x
    → (y : PollFd) × (get_elem? ys i ≡ some y) × (y.fd ≡ x.fd) × (y.events ≡ x.events)
polled-there [] [] i x h e = grind arith
polled-there [] (y ∷ ys) i x h e = absurd h
polled-there (z ∷ xs) [] i x h e = absurd h
polled-there (z ∷ xs) (y ∷ ys) zero x h e = (
  y,
  refl,
  h.0 ∙ ap (λ z. z.fd) (some-injective z x e),
  h.1 ∙ ap (λ z. z.events) (some-injective z x e),
)
polled-there (z ∷ xs) (y ∷ ys) (suc i) x h e = polled-there xs ys i x h.2 e

there-polled :
    (xs ys : List PollFd) (i : ℕ) (y : PollFd)
    → ArePolled xs ys
    → get_elem? ys i ≡ some y
    → (x : PollFd) × (get_elem? xs i ≡ some x) × (y.fd ≡ x.fd) × (y.events ≡ x.events)
there-polled [] [] i y h e = grind arith
there-polled [] (z ∷ ys) i y h e = absurd h
there-polled (x ∷ xs) [] i y h e = absurd h
there-polled (x ∷ xs) (z ∷ ys) zero y h e = (
  x,
  refl,
  ap (λ z. z.fd) (sym (some-injective z y e)) ∙ h.0,
  ap (λ z. z.events) (sym (some-injective z y e)) ∙ h.1,
)
there-polled (x ∷ xs) (z ∷ ys) (suc i) y h e = there-polled xs ys i y h.2 e

-- With the entries polled and other `revents`, the same is watched.
pub polled-IsWatching :
    (p : Poller) (w : Watched) (ys : List PollFd) (es : ℕ → Event)
    → IsWatching p w
    → ArePolled p.pollfds ys
    → ((a : ℕ) → ((es a).fd ≡ (p.event a).fd) × ((es a).index ≡ (p.event a).index))
    → IsWatching (record p { pollfds = ys; event = es }) w
polled-IsWatching p w ys es q polled same = record {
  known = q.known;
  placed = λ f a e h.
      let r = q.placed f a e h in
      let (y, there, fd, events) = polled-there p.pollfds ys r.place r.entry polled r.there in
      record {
        own = (same a).0 ∙ r.own;
        place = r.place;
        index = (same a).1 ∙ r.index;
        entry = y;
        there = there;
        fd = fd ∙ r.fd;
        events = events ∙ r.events;
      };
  listed = λ i y there.
      let (x, here, fd, events) = there-polled p.pollfds ys i y polled there in
      let (a, wa, ia) = q.listed i x here in
      (a, ap w fd ∙ wa ∙ ap (λ e. some (a, e)) (sym events), (same a).1 ∙ ia);
}

-- Each watched event with the marks that the store has for it.
with_marks :
    (m : ℕ → Option ℕ) (w : Watched) (marks : ℕ → ℕ) (xs : List PollFd)
    → ((f : ℕ) → m f ≡ address (w f))
    → ((j : ℕ) (x : PollFd) (a : ℕ)
        → get_elem? xs j ≡ some x
        → is_marked x ≡ true
        → m x.fd ≡ some a
        → marks a ≡ x.revents)
    → map (λ a. (a, marks a)) (ready m xs) ≡ ready_events w xs
with_marks m w marks [] known h = refl
with_marks m w marks (x ∷ xs) known h =
    let rest = with_marks m w marks xs known (λ j. h (suc j)) in
    elim (Bool-cases (is_marked x)) [
      | inr e ↦ rw e rest
      | inl e ↦ elim (Option-cases (w x.fd)) [
        | inl none_there ↦ rw (e, known x.fd, none_there) rest
        | inr ((a, f), there) ↦
            let mine : marks a ≡ x.revents = h 0 x a refl e (known x.fd ∙ ap address there) in
            rw (e, known x.fd, there) (rw (mine, rest) refl)
      ]
    ]

-- The place of an event tells the place of its entry.
entry_of :
    (p : Poller) (w : Watched) (q : IsWatching p w) (k : ℕ) (z : PollFd) (a : ℕ)
    → get_elem? p.pollfds k ≡ some z
    → p.events_map z.fd ≡ some a
    → (p.event a).index ≡ pos k
entry_of p w q k z a there known =
    let (b, wb, ib) = q.listed k z there in
    let same : b ≡ a = some-injective b a (ap address (sym wb) ∙ sym (q.known z.fd) ∙ known) in
    ap (λ c. (p.event c).index) (sym same) ∙ ib

-- Of a poller that watches events, and a call of `poll` that returns the number of entries with
-- marks and leaves descriptors and flags as they are: `Poll` gives the watched events of the marked
-- entries in their order, each with the marks as its `revents`, and watches what it watched.
pub poll_events-ready :
    (p : Poller) (w : Watched) (system : List PollFd → ℤ × List PollFd) (n : ℕ) (xs : List PollFd)
    → IsWatching p w
    → system p.pollfds ≡ (pos n, xs)
    → ArePolled p.pollfds xs
    → n ≡ marked xs
    → (map (λ a. (a, ((poll_events system p).1.event a).revents)) (poll_events system p).0
        ≡ ready_events w xs)
      × IsWatching (poll_events system p).1 w
unfolding poll_events
poll_events-ready p w system n xs q returned polled counted =
    let r = full_loop p.events_map xs ([], p.event) in
    let t : Poller = record p { pollfds = xs; event = r.1 } in
    let result : poll_events system p ≡ (r.0, t) =
      ap (λ z. after_poll z p) returned
      ∙ ap (λ z. (z.0, record p { pollfds = xs; event = z.1 }))
          (poll_loop-full p.events_map n xs ([], p.event) counted) in
    let watching : IsWatching t w =
      polled-IsWatching p w xs r.1 q polled (full_loop-fields p.events_map xs ([], p.event)) in
    let active = full_loop-active p.events_map xs ([], p.event) in
    let marks : (j : ℕ) (x : PollFd) (a : ℕ)
        → get_elem? xs j ≡ some x
        → is_marked x ≡ true
        → p.events_map x.fd ≡ some a
        → (r.1 a).revents ≡ x.revents =
      λ j x a there mark own.
        full_loop-revents p.events_map xs ([], p.event) j x a there mark own
          (λ k z there' own'. ap place_of (
            sym (entry_of t w watching k z a there' own')
            ∙ entry_of t w watching j x a there own)) in
    subst (λ z. (map (λ a. (a, (z.1.event a).revents)) z.0 ≡ ready_events w xs) × IsWatching z.1 w)
      (sym result)
      (
        ap (map (λ a. (a, (r.1 a).revents))) active
            ∙ with_marks p.events_map w (λ a. (r.1 a).revents) xs q.known marks,
        watching,
      )
