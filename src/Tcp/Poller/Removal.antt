-- ===== src/Tcp/Poller/Removal.antt =====
-- `RemoveEvent`: the poller does not watch the event any more, and else what it watched, although
-- the last entry takes the place of the one removed.
use restful_cweb.Prelude.{
  ℕ, suc, ◌-◌, ◌<◌, ◌==◌, ◌≡◌, ◌≢◌, refl, sym, ap, ◌∙◌, List, arith, length, get_elem?, set, take,
  none, some, inl, inr, update, update_self, update_other, pos, if◌then◌else◌, get_elem?-set_self,
  get_elem?-set_ne, Bool-cases, lt→ltb,
}
use restful_cweb.Tcp.Poller.{PollFd, Poller, move_last, swap_out, take_out, remove_at, remove_event}
use restful_cweb.Tcp.Poller.Entries.{
  get_elem?-lt, get_elem?-there, get_elem?-take, get_elem?-set_cases, length-take_le,
}
use restful_cweb.Tcp.Poller.Watching.{
  Watched, IsWatching, IsPlaced, address, one_place, update-cases, known-update, kept-IsPlaced,
  place_of, same_watched, same_entry, nothing-there,
}

-- The last entry is not there any more: the places of the others.
module _ {A : Type 0} (n : ℕ) (xs : List A) where
  taken-there :
      (i : ℕ) (x : A) → get_elem? (take n xs) i ≡ some x → (i < n) × (get_elem? xs i ≡ some x)
  taken-there i x h =
      let lt = length-take_le n xs i (get_elem?-lt (take n xs) i x h) in
      (lt, sym (get_elem?-take n xs i lt) ∙ h)

module _ (p : Poller) (w : Watched) (a e : ℕ) (q : IsWatching p w)
    (r : IsPlaced p (p.event a).fd a e) where
  -- The place of an event that is watched for another descriptor is another one.
  other_place : (f b g : ℕ) (s : IsPlaced p f b g) → (p.event a).fd ≢ f → r.place ≢ s.place
  other_place f b g s apart here = apart (
      sym r.fd
      ∙ ap (λ z. z.fd) (same_entry p r.place s.place r.entry s.entry r.there s.there here)
      ∙ s.fd)

  -- The descriptor of an entry elsewhere is another one.
  other_entry :
      (j : ℕ) (y : PollFd) → get_elem? p.pollfds j ≡ some y → r.place ≢ j → (p.event a).fd ≢ y.fd
  other_entry j y there apart same =
      apart (one_place p w q r.place j r.entry y r.there there (r.fd ∙ same))

  still_placed :
      (f b g : ℕ)
      → update w (p.event a).fd none f ≡ some (b, g)
      → ((p.event a).fd ≢ f) × (w f ≡ some (b, g))
  still_placed f b g h = elim (update-cases w (p.event a).fd none f) [
    | inl (same, now) ↦ absurd (nothing-there (b, g) (sym now ∙ h))
    | inr (apart, old) ↦ (apart, sym old ∙ h)
  ]

  -- The entry was the last one.
  pop_back-IsWatching :
      r.place ≡ length p.pollfds - 1
      → IsWatching
          (record p {
            pollfds = take (length p.pollfds - 1) p.pollfds;
            events_map = update p.events_map (p.event a).fd none;
          })
          (update w (p.event a).fd none)
  pop_back-IsWatching last =
      let n = length p.pollfds - 1 in
      let t : Poller = record p {
        pollfds = take (length p.pollfds - 1) p.pollfds;
        events_map = update p.events_map (p.event a).fd none;
      } in
      record {
        known = known-update p w q (p.event a).fd none;
        placed = λ f b g h.
            let (apart, old) = still_placed f b g h in
            let s = q.placed f b g old in
            let lt : s.place < n = omega (
              arith,
              get_elem?-lt p.pollfds s.place s.entry s.there,
              other_place f b g s apart,
              last,
            ) in
            kept-IsPlaced p t f b g s refl (get_elem?-take n p.pollfds s.place lt ∙ s.there);
        listed = λ j y h.
            let (lt, there) = taken-there n p.pollfds j y h in
            let (b, wb, ib) = q.listed j y there in
            (
              b,
              update_other w (p.event a).fd none y.fd
                    (other_entry j y there (omega (arith, lt, last)))
                  ∙ wb,
              ib,
            );
      }

  -- The last entry comes from the index `n`, with the event `b`.
  module _ (n : ℕ) (x : PollFd) (b : ℕ) (end : suc n ≡ length p.pollfds)
      (there : get_elem? p.pollfds n ≡ some x) (wb : w x.fd ≡ some (b, x.events))
      (ib : (p.event b).index ≡ pos n) (apart : r.place ≢ n) where
    abbrev moved : Poller
    moved = record {
      pollfds = take n (set p.pollfds r.place x);
      events_map = update p.events_map (p.event a).fd none;
      event = update p.event b (record (p.event b) { index = pos r.place });
    }

    place-lt : r.place < n
    place-lt = omega (arith, get_elem?-lt p.pollfds r.place r.entry r.there, end, apart)

    moved_last :
        (f c g : ℕ) (s : IsPlaced p f c g)
        → b ≡ c
        → moved.event c ≡ record (p.event b) { index = pos r.place }
        → IsPlaced moved f c g
    moved_last f c g s same now =
        let here : x ≡ s.entry =
          same_entry p n s.place x s.entry there s.there
            (ap place_of (sym ib ∙ ap (λ z. (p.event z).index) same ∙ s.index)) in
        record {
          own = ap (λ z. z.fd) now ∙ ap (λ z. (p.event z).fd) same ∙ s.own;
          place = r.place;
          index = ap (λ z. z.index) now;
          entry = x;
          there =
              get_elem?-take n (set p.pollfds r.place x) r.place place-lt
              ∙ get_elem?-set_self p.pollfds r.place x
                  (get_elem?-lt p.pollfds r.place r.entry r.there);
          fd = ap (λ z. z.fd) here ∙ s.fd;
          events = ap (λ z. z.events) here ∙ s.events;
        }

    unmoved :
        (f c g : ℕ) (s : IsPlaced p f c g)
        → w f ≡ some (c, g)
        → (p.event a).fd ≢ f
        → b ≢ c
        → moved.event c ≡ p.event c
        → IsPlaced moved f c g
    unmoved f c g s watched away other same =
        let not_last : n ≢ s.place = λ here.
          other
            (same_watched b c x.events g (
              sym wb
              ∙ ap w (ap (λ z. z.fd) (same_entry p n s.place x s.entry there s.there here) ∙ s.fd)
              ∙ watched)).0 in
        let lt : s.place < n =
          omega (arith, get_elem?-lt p.pollfds s.place s.entry s.there, end, not_last) in
        kept-IsPlaced p moved f c g s same (
          get_elem?-take n (set p.pollfds r.place x) s.place lt
          ∙ get_elem?-set_ne p.pollfds {i = r.place} {j = s.place} x (other_place f c g s away)
          ∙ s.there)

    moved-IsWatching : IsWatching moved (update w (p.event a).fd none)
    moved-IsWatching = record {
      known = known-update p w q (p.event a).fd none;
      placed = λ f c g h.
          let (away, old) = still_placed f c g h in
          elim (update-cases p.event b (record (p.event b) { index = pos r.place }) c) [
            | inl (same, now) ↦ moved_last f c g (q.placed f c g old) same now
            | inr (other, same) ↦ unmoved f c g (q.placed f c g old) old away other same
          ];
      listed = λ j y h.
          let (lt, here) = taken-there n (set p.pollfds r.place x) j y h in
          elim (get_elem?-set_cases p.pollfds r.place j x y here) [
            | inl (at, same) ↦ (
              b,
              ap (update w (p.event a).fd none) (ap (λ z. z.fd) same)
                  ∙ update_other w (p.event a).fd none x.fd (other_entry n x there apart)
                  ∙ wb
                  ∙ ap (λ z. some (b, z.events)) (sym same),
              ap (λ z. z.index) (update_self p.event b (record (p.event b) { index = pos r.place }))
                  ∙ ap pos at,
            )
            | inr (away, old) ↦
                let (c, wc, ic) = q.listed j y old in
                let other : b ≢ c = λ same.
                  omega (arith, lt, ap place_of (sym ib ∙ ap (λ z. (p.event z).index) same ∙ ic)) in
                (
                  c,
                  update_other w (p.event a).fd none y.fd (other_entry j y old away) ∙ wc,
                  ap (λ z. z.index)
                        (update_other p.event b (record (p.event b) { index = pos r.place }) c
                          other)
                      ∙ ic,
                )
          ];
    }

-- An event that is watched: after `RemoveEvent`, which then finds an event at every entry, the
-- poller watches no event for its descriptor, and every other descriptor as before.
pub remove_event-IsWatching :
    (p : Poller) (w : Watched) (a e : ℕ)
    → IsWatching p w
    → w (p.event a).fd ≡ some (a, e)
    → (t : Poller) × (remove_event a p ≡ some t) × IsWatching t (update w (p.event a).fd none)
unfolding remove_event
remove_event-IsWatching p w a e q watched =
    let fd = (p.event a).fd in
    let r = q.placed fd a e watched in
    let n = length p.pollfds - 1 in
    let lt = get_elem?-lt p.pollfds r.place r.entry r.there in
    let removed : Poller = record p { events_map = update p.events_map fd none } in
    let found : remove_event a p ≡ take_out r.place removed =
      ap (λ i. remove_at i a p) r.index
      ∙ ap (λ b. if b then take_out r.place removed else some p)
          (lt→ltb r.place (length p.pollfds) lt) in
    elim (Bool-cases (r.place == n)) [
      | inl last ↦ (
        record removed { pollfds = take n p.pollfds },
        found ∙ rw last refl,
        pop_back-IsWatching p w a e q r (ground arith),
      )
      | inr before ↦
          let (x, there) = get_elem?-there p.pollfds n (omega (arith, lt)) in
          let (b, wb, ib) = q.listed n x there in
          let apart : r.place ≢ n = ground arith in
          let end : suc n ≡ length p.pollfds = omega (arith, lt) in
          let known : update p.events_map fd none x.fd ≡ some b =
            known-update p w q fd none x.fd
            ∙ ap address
                (update_other w fd none x.fd (other_entry p w a e q r n x there apart) ∙ wb) in
          (
            moved p w a e q r n x b end there wb ib apart,
            found
                ∙ ap
                    (λ c.
                      if c
                      then some (record removed { pollfds = take n p.pollfds })
                      else swap_out (get_elem? p.pollfds n) r.place removed)
                    before
                ∙ ap (λ z. swap_out z r.place removed) there
                ∙ ap (λ m. move_last m x r.place removed) known,
            moved-IsWatching p w a e q r n x b end there wb ib apart,
          )
    ]
