-- ===== src/Tcp/Poller/Update.antt =====
-- `UpdateEvent`: the poller then watches the event, and else what it watched.
use restful_cweb.Prelude.{
  ℕ, ◌≡◌, ◌≢◌, refl, sym, ap, ◌∙◌, [], ◌∷◌, arith, length, get_elem?, set, none, some, ◌⊎◌, inl,
  inr, update, update_self, update_other, pos, negsuc, get_elem?-set_self, get_elem?-set_ne,
}
use restful_cweb.Tcp.Poller.{
  PollFd, Poller, to_short, new_pollfd, register, change_events, update_at, update_event,
}
use restful_cweb.Tcp.Poller.Entries.{
  get_elem?-lt, get_elem?-append, get_elem?-snoc, get_elem?-snoc_cases, get_elem?-set_cases,
}
use restful_cweb.Tcp.Poller.Watching.{
  Watched, IsWatching, IsPlaced, address, one_place, update-cases, known-update, kept-IsPlaced,
  moved-IsPlaced, same_entry, nothing-there,
}

-- What is watched after an update of an event.
abbrev pub with_event : Poller → ℕ → Watched → Watched
with_event p a w = update w (p.event a).fd (some (a, to_short (p.event a).events))

abbrev watched_again : ℕ → PollFd → ℕ → Poller → Poller
watched_again i x a p = record p {
  pollfds = set p.pollfds i (record x { events = to_short (p.event a).events; revents = 0 });
}

-- A watched event has an index, and one without an index is not watched.
new-apart :
    (p : Poller) (w : Watched) (a : ℕ) (q : IsWatching p w)
    → (p.event a).index ≡ negsuc 0
    → (f b e : ℕ) → w f ≡ some (b, e)
    → a ≢ b
new-apart p w a q new f b e h same =
    let r = q.placed f b e h in
    let clash : negsuc 0 ≡ pos r.place = sym new ∙ ap (λ z. (p.event z).index) same ∙ r.index in
    absurd (grind arith)

pub register-IsWatching :
    (p : Poller) (w : Watched) (a : ℕ)
    → IsWatching p w
    → (p.event a).index ≡ negsuc 0
    → w (p.event a).fd ≡ none
    → IsWatching (register none a p) (with_event p a w)
register-IsWatching p w a q new free =
    let fd = (p.event a).fd in
    let t = register none a p in
    let v : ℕ × ℕ = (a, to_short (p.event a).events) in
    let self : t.event a ≡ record (p.event a) { index = pos (length p.pollfds) } =
      update_self p.event a (record (p.event a) { index = pos (length p.pollfds) }) in
    let others : (b : ℕ) → a ≢ b → t.event b ≡ p.event b =
      update_other p.event a (record (p.event a) { index = pos (length p.pollfds) }) in
    record {
      known = known-update p w q fd (some v);
      placed = λ f b e h. elim (update-cases w fd (some v) f) [
        | inl (same, now) ↦
            moved-IsPlaced t fd f a b v.1 e
              (record {
                own = ap (λ z. z.fd) self;
                place = length p.pollfds;
                index = ap (λ z. z.index) self;
                entry = new_pollfd (p.event a);
                there = get_elem?-snoc p.pollfds (new_pollfd (p.event a));
                fd = refl;
                events = refl;
              })
              same (sym now ∙ h)
        | inr (apart, old) ↦
            let r = q.placed f b e (sym old ∙ h) in
            kept-IsPlaced p t f b e r (others b (new-apart p w a q new f b e (sym old ∙ h)))
              (get_elem?-append p.pollfds (new_pollfd (p.event a) ∷ []) r.place r.entry r.there)
      ];
      listed = λ i x h. elim (get_elem?-snoc_cases p.pollfds (new_pollfd (p.event a)) i x h) [
        | inl old ↦
            let (b, wb, ib) = q.listed i x old in
            let apart : fd ≢ x.fd =
              λ e. absurd (nothing-there (b, x.events) (sym free ∙ ap w e ∙ wb)) in
            (
              b,
              update_other w fd (some v) x.fd apart ∙ wb,
              ap (λ z. z.index) (others b (new-apart p w a q new x.fd b x.events wb)) ∙ ib,
            )
        | inr (at, same) ↦ (
          a,
          ap (update w fd (some v)) (ap (λ z. z.fd) same)
              ∙ update_self w fd (some v)
              ∙ ap (λ z. some (a, z.events)) (sym same),
          ap (λ z. z.index) self ∙ ap pos (sym at),
        )
      ];
    }

watched_again-IsWatching :
    (p : Poller) (w : Watched) (a e : ℕ) (q : IsWatching p w) (r : IsPlaced p (p.event a).fd a e)
    → w (p.event a).fd ≡ some (a, e)
    → IsWatching (watched_again r.place r.entry a p) (with_event p a w)
watched_again-IsWatching p w a e q r watched =
    let fd = (p.event a).fd in
    let t = watched_again r.place r.entry a p in
    let v : ℕ × ℕ = (a, to_short (p.event a).events) in
    let x : PollFd = record r.entry { events = v.1; revents = 0 } in
    record {
      known = λ f. q.known f ∙ elim (update-cases w fd (some v) f) [
        | inl (same, now) ↦ ap address (ap w (sym same) ∙ watched) ∙ sym (ap address now)
        | inr (apart, old) ↦ ap address (sym old)
      ];
      placed = λ f b g h. elim (update-cases w fd (some v) f) [
        | inl (same, now) ↦
            moved-IsPlaced t fd f a b v.1 g
              (record {
                own = refl;
                place = r.place;
                index = r.index;
                entry = x;
                there =
                    get_elem?-set_self p.pollfds r.place x
                      (get_elem?-lt p.pollfds r.place r.entry r.there);
                fd = r.fd;
                events = refl;
              })
              same (sym now ∙ h)
        | inr (apart, old) ↦
            let s = q.placed f b g (sym old ∙ h) in
            kept-IsPlaced p t f b g s refl (
              get_elem?-set_ne p.pollfds {i = r.place} {j = s.place} x (λ here. apart (
                sym r.fd
                ∙ ap (λ z. z.fd) (same_entry p r.place s.place r.entry s.entry r.there s.there here)
                ∙ s.fd))
              ∙ s.there)
      ];
      listed = λ i y h. elim (get_elem?-set_cases p.pollfds r.place i x y h) [
        | inl (at, same) ↦ (
          a,
          ap (update w fd (some v)) (ap (λ z. z.fd) same ∙ r.fd)
              ∙ update_self w fd (some v)
              ∙ ap (λ z. some (a, z.events)) (sym same),
          r.index ∙ ap pos at,
        )
        | inr (apart, old) ↦
            let (b, wb, ib) = q.listed i y old in
            (
              b,
              update_other w fd (some v) y.fd
                    (λ same. apart (one_place p w q r.place i r.entry y r.there old (r.fd ∙ same)))
                  ∙ wb,
              ib,
            )
      ];
    }

-- An event that is new, while no event is watched for its descriptor, and one that is watched: after
-- `UpdateEvent` the poller watches the event for the flags that it has, and every other descriptor as
-- before.
pub update_event-IsWatching :
    (p : Poller) (w : Watched) (a : ℕ)
    → IsWatching p w
    → (((p.event a).index ≡ negsuc 0) × (w (p.event a).fd ≡ none))
      ⊎ ((e : ℕ) × (w (p.event a).fd ≡ some (a, e)))
    → (t : Poller) × (update_event a p ≡ some t) × IsWatching t (with_event p a w)
unfolding update_event
update_event-IsWatching p w a q (inl (new, free)) = (
  register none a p,
  ap (λ i. update_at i a p) new
      ∙ ap (λ m. some (register m a p)) (q.known (p.event a).fd ∙ ap address free),
  register-IsWatching p w a q new free,
)
update_event-IsWatching p w a q (inr (e, watched)) =
    let r = q.placed (p.event a).fd a e watched in
    (
      watched_again r.place r.entry a p,
      ap (λ i. update_at i a p) r.index
          ∙ ap (λ m. change_events m (get_elem? p.pollfds r.place) r.place a p)
              (q.known (p.event a).fd ∙ ap address watched)
          ∙ ap (λ x. change_events (some a) x r.place a p) r.there,
      watched_again-IsWatching p w a e q r watched,
    )
