-- ===== src/Tcp/Poller/Watching.antt =====
-- What the entries of `PollPoller` say: which events are watched, for what.
use mathlib.Core.Path.{subst}
use mathlib.Core.Option.{some-injective}
use restful_cweb.Prelude.{
  ℕ, ◌≡◌, ◌≢◌, sym, ap, ◌∙◌, arith, get_elem?, Option, none, some, ◌⊎◌, inl, inr, update,
  update_self, update_other, ℤ, pos, negsuc,
}
use restful_cweb.Tcp.Poller.{PollFd, Poller}

-- For each descriptor, the address of the event that is watched and the flags that it is watched for.
abbrev pub Watched : Type 0
Watched = ℕ → Option (ℕ × ℕ)

abbrev pub address : Option (ℕ × ℕ) → Option ℕ
address none = none
address (some (a, e)) = some a

-- The entry with the index of an event.
pub record IsPlaced (p : Poller) (f a e : ℕ) : Type 0 where
  pub own : (p.event a).fd ≡ f
  pub place : ℕ
  pub index : (p.event a).index ≡ pos place
  pub entry : PollFd
  pub there : get_elem? p.pollfds place ≡ some entry
  pub fd : entry.fd ≡ f
  pub events : entry.events ≡ e

-- The poller watches exactly these: its map, its entries and the indices of the events agree.
pub record IsWatching (p : Poller) (w : Watched) : Type 0 where
  pub known : (f : ℕ) → p.events_map f ≡ address (w f)
  pub placed : (f a e : ℕ) → w f ≡ some (a, e) → IsPlaced p f a e
  pub listed :
      (i : ℕ) (x : PollFd)
      → get_elem? p.pollfds i ≡ some x
      → (a : ℕ) × (w x.fd ≡ some (a, x.events)) × ((p.event a).index ≡ pos i)

abbrev pub place_of : ℤ → ℕ
place_of (pos n) = n
place_of (negsuc n) = n

pub same_watched :
    (a b e f : ℕ) → ◌≡◌ {A = Option (ℕ × ℕ)} (some (a, e)) (some (b, f)) → (a ≡ b) × (e ≡ f)
same_watched a b e f h =
    let same = some-injective {A = ℕ × ℕ} (a, e) (b, f) h in
    (ap (λ z. z.0) same, ap (λ z. z.1) same)

-- Two entries have different descriptors, and two descriptors different events.
pub one_place :
    (p : Poller) (w : Watched) (q : IsWatching p w) (i j : ℕ) (x y : PollFd)
    → get_elem? p.pollfds i ≡ some x
    → get_elem? p.pollfds j ≡ some y
    → x.fd ≡ y.fd
    → i ≡ j
one_place p w q i j x y there there' same =
    let (a, wa, ia) = q.listed i x there in
    let (b, wb, ib) = q.listed j y there' in
    let (ab, _) = same_watched a b x.events y.events (sym wa ∙ ap w same ∙ wb) in
    ap place_of (sym ia ∙ ap (λ c. (p.event c).index) ab ∙ ib)

pub update-cases :
    {A : Type 0} (f : ℕ → A) (k : ℕ) (v : A) (q : ℕ)
    → ((k ≡ q) × (update f k v q ≡ v)) ⊎ ((k ≢ q) × (update f k v q ≡ f q))
unfolding update
update-cases f k v q = ground arith

-- The map after an assignment.
pub known-update :
    (p : Poller) (w : Watched) (q : IsWatching p w) (k : ℕ) (v : Option (ℕ × ℕ)) (f : ℕ)
    → update p.events_map k (address v) f ≡ address (update w k v f)
known-update p w q k v f = elim (update-cases p.events_map k (address v) f) [
  | inl (e, h) ↦ h ∙ ap address (sym (ap (update w k v) (sym e) ∙ update_self w k v))
  | inr (n, h) ↦ h ∙ q.known f ∙ ap address (sym (update_other w k v f n))
]

-- An event that keeps its fields and its entry keeps its place.
pub kept-IsPlaced :
    (p t : Poller) (f a e : ℕ) (r : IsPlaced p f a e)
    → t.event a ≡ p.event a
    → get_elem? t.pollfds r.place ≡ some r.entry
    → IsPlaced t f a e
kept-IsPlaced p t f a e r same there = record {
  own = ap (λ z. z.fd) same ∙ r.own;
  place = r.place;
  index = ap (λ z. z.index) same ∙ r.index;
  entry = r.entry;
  there = there;
  fd = r.fd;
  events = r.events;
}

pub moved-IsPlaced :
    (t : Poller) (f g a b e h : ℕ)
    → IsPlaced t f a e
    → f ≡ g
    → ◌≡◌ {A = Option (ℕ × ℕ)} (some (a, e)) (some (b, h))
    → IsPlaced t g b h
moved-IsPlaced t f g a b e h r fg same =
    let (ab, eh) = same_watched a b e h same in
    subst (λ z. IsPlaced t z b h) fg
      (subst (λ z. IsPlaced t f z h) ab (subst (λ z. IsPlaced t f a z) eh r))

pub same_entry :
    (p : Poller) (i j : ℕ) (x y : PollFd)
    → get_elem? p.pollfds i ≡ some x
    → get_elem? p.pollfds j ≡ some y
    → i ≡ j
    → x ≡ y
same_entry p i j x y there there' same =
    some-injective x y (sym there ∙ ap (get_elem? p.pollfds) same ∙ there')

pub nothing-there : (v : ℕ × ℕ) → ◌≡◌ {A = Option (ℕ × ℕ)} none (some v) → ⊥
nothing-there v h = grind arith
