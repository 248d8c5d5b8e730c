-- ===== src/Tcp/Poller/Ready.antt =====
-- `Poll`: the active events are those that the system call has marked.
use mathlib.Core.Option.{some-injective}
use restful_cweb.Prelude.{
  Bool, ℕ, zero, suc, ◌≡◌, ◌≢◌, refl, sym, ap, ◌∙◌, List, [], ◌∷◌, ◌++◌, arith, get_elem?,
  append-nil, append_assoc, Option, none, some, inl, inr, update_self, update_other, if◌then◌else◌,
  Bool-cases, true,
}
use restful_cweb.Tcp.Poller.{Event, PollFd, activate, is_marked, poll_loop}
use restful_cweb.Tcp.Poller.Watching.{update-cases}

-- The entries that are marked, their number, and the events of them.
abbrev pub marked : List PollFd → ℕ
marked [] = 0
marked (x ∷ xs) = if is_marked x then suc (marked xs) else marked xs

abbrev pub one_of : Option ℕ → List ℕ → List ℕ
one_of none ys = ys
one_of (some a) ys = a ∷ ys

abbrev pub ready : (ℕ → Option ℕ) → List PollFd → List ℕ
ready m [] = []
ready m (x ∷ xs) = if is_marked x then one_of (m x.fd) (ready m xs) else ready m xs

-- What `poll` leaves: the entries with other marks.
abbrev pub ArePolled : List PollFd → List PollFd → Type 0
ArePolled [] [] = Unit {0}
ArePolled [] (y ∷ ys) = ⊥
ArePolled (x ∷ xs) [] = ⊥
ArePolled (x ∷ xs) (y ∷ ys) = (y.fd ≡ x.fd) × (y.events ≡ x.events) × ArePolled xs ys

-- The loop with no count, through all entries.
unfoldable pub full_loop :
    (ℕ → Option ℕ) → List PollFd → List ℕ × (ℕ → Event) → List ℕ × (ℕ → Event)
full_loop m [] r = r
full_loop m (x ∷ xs) r =
    if is_marked x then full_loop m xs (activate (m x.fd) x r) else full_loop m xs r

abbrev one_more : ℕ → Bool → ℕ
one_more n b = if b then suc n else n

full_loop-none :
    (m : ℕ → Option ℕ) (xs : List PollFd) (r : List ℕ × (ℕ → Event))
    → marked xs ≡ 0
    → full_loop m xs r ≡ r
unfolding full_loop
full_loop-none m [] r h = refl
full_loop-none m (x ∷ xs) r h = elim (Bool-cases (is_marked x)) [
  | inl e ↦ absurd (omega (arith, sym (ap (one_more (marked xs)) e) ∙ h))
  | inr e ↦ rw e (full_loop-none m xs r (sym (ap (one_more (marked xs)) e) ∙ h))
]

-- The count stops the loop behind the last entry that is marked.
pub poll_loop-full :
    (m : ℕ → Option ℕ) (n : ℕ) (xs : List PollFd) (r : List ℕ × (ℕ → Event))
    → n ≡ marked xs
    → poll_loop m n xs r ≡ full_loop m xs r
unfolding poll_loop full_loop
poll_loop-full m zero xs r e = sym (full_loop-none m xs r (sym e))
poll_loop-full m (suc n) [] r e = refl
poll_loop-full m (suc n) (x ∷ xs) r e = elim (Bool-cases (is_marked x)) [
  | inl h ↦
      let less : suc n ≡ suc (marked xs) = e ∙ ap (one_more (marked xs)) h in
      rw h (poll_loop-full m n xs (activate (m x.fd) x r) (omega arith))
  | inr h ↦ rw h (poll_loop-full m (suc n) xs r (e ∙ ap (one_more (marked xs)) h))
]

activate-active :
    (o : Option ℕ) (x : PollFd) (r : List ℕ × (ℕ → Event)) (ys : List ℕ)
    → (activate o x r).0 ++ ys ≡ r.0 ++ one_of o ys
activate-active none x r ys = refl
activate-active (some a) x r ys = append_assoc r.0 (a ∷ []) ys

pub full_loop-active :
    (m : ℕ → Option ℕ) (xs : List PollFd) (r : List ℕ × (ℕ → Event))
    → (full_loop m xs r).0 ≡ r.0 ++ ready m xs
unfolding full_loop
full_loop-active m [] r = sym (append-nil r.0)
full_loop-active m (x ∷ xs) r = elim (Bool-cases (is_marked x)) [
  | inl h ↦
      rw h
        (full_loop-active m xs (activate (m x.fd) x r) ∙ activate-active (m x.fd) x r (ready m xs))
  | inr h ↦ rw h (full_loop-active m xs r)
]

-- The loop writes `revents` only, and those of the events of marked entries.
activate-fields :
    (o : Option ℕ) (x : PollFd) (r : List ℕ × (ℕ → Event)) (a : ℕ)
    → (((activate o x r).1 a).fd ≡ (r.1 a).fd) × (((activate o x r).1 a).index ≡ (r.1 a).index)
activate-fields none x r a = (refl, refl)
activate-fields (some b) x r a =
    elim (update-cases r.1 b (record (r.1 b) { revents = x.revents }) a) [
      | inl (same, e) ↦ (
        ap (λ z. z.fd) e ∙ ap (λ z. (r.1 z).fd) same,
        ap (λ z. z.index) e ∙ ap (λ z. (r.1 z).index) same,
      )
      | inr (apart, e) ↦ (ap (λ z. z.fd) e, ap (λ z. z.index) e)
    ]

pub full_loop-fields :
    (m : ℕ → Option ℕ) (xs : List PollFd) (r : List ℕ × (ℕ → Event)) (a : ℕ)
    → (((full_loop m xs r).1 a).fd ≡ (r.1 a).fd) × (((full_loop m xs r).1 a).index ≡ (r.1 a).index)
unfolding full_loop
full_loop-fields m [] r a = (refl, refl)
full_loop-fields m (x ∷ xs) r a =
    let here = activate-fields (m x.fd) x r a in
    let (f, i) = full_loop-fields m xs (activate (m x.fd) x r) a in
    elim (Bool-cases (is_marked x)) [
      | inl e ↦ rw e (f ∙ here.0, i ∙ here.1)
      | inr e ↦ rw e (full_loop-fields m xs r a)
    ]

activate-kept :
    (o : Option ℕ) (x : PollFd) (r : List ℕ × (ℕ → Event)) (a : ℕ)
    → o ≢ some a
    → (activate o x r).1 a ≡ r.1 a
activate-kept none x r a h = refl
activate-kept (some b) x r a h =
    update_other r.1 b (record (r.1 b) { revents = x.revents }) a (λ e. h (ap some e))

full_loop-kept :
    (m : ℕ → Option ℕ) (xs : List PollFd) (r : List ℕ × (ℕ → Event)) (a : ℕ)
    → ((j : ℕ) (y : PollFd) → get_elem? xs j ≡ some y → m y.fd ≢ some a)
    → (full_loop m xs r).1 a ≡ r.1 a
unfolding full_loop
full_loop-kept m [] r a h = refl
full_loop-kept m (x ∷ xs) r a h =
    let rest = full_loop-kept m xs (activate (m x.fd) x r) a (λ j. h (suc j)) in
    elim (Bool-cases (is_marked x)) [
      | inl e ↦ rw e (rest ∙ activate-kept (m x.fd) x r a (h 0 x refl))
      | inr e ↦ rw e (full_loop-kept m xs r a (λ j. h (suc j)))
    ]

activate-revents :
    (o : Option ℕ) (x : PollFd) (r : List ℕ × (ℕ → Event)) (a : ℕ)
    → o ≡ some a
    → ((activate o x r).1 a).revents ≡ x.revents
activate-revents o x r a e =
    ap (λ k. ((activate k x r).1 a).revents) e
    ∙ ap (λ z. z.revents) (update_self r.1 a (record (r.1 a) { revents = x.revents }))

pub full_loop-revents :
    (m : ℕ → Option ℕ) (xs : List PollFd) (r : List ℕ × (ℕ → Event)) (j : ℕ) (y : PollFd) (a : ℕ)
    → get_elem? xs j ≡ some y
    → is_marked y ≡ true
    → m y.fd ≡ some a
    → ((k : ℕ) (z : PollFd) → get_elem? xs k ≡ some z → m z.fd ≡ some a → k ≡ j)
    → ((full_loop m xs r).1 a).revents ≡ y.revents
unfolding full_loop
full_loop-revents m [] r j y a there h own one = grind arith
full_loop-revents m (x ∷ xs) r zero y a there h own one =
    let here : x ≡ y = some-injective x y there in
    let rest =
      full_loop-kept m xs (activate (m x.fd) x r) a (λ k z e f. omega (arith, one (suc k) z e f)) in
    rw (ap is_marked here ∙ h) (
      ap (λ z. z.revents) rest
      ∙ activate-revents (m x.fd) x r a (ap (λ z. m z.fd) here ∙ own)
      ∙ ap (λ z. z.revents) here)
full_loop-revents m (x ∷ xs) r (suc j) y a there h own one =
    let others : (k : ℕ) (z : PollFd) → get_elem? xs k ≡ some z → m z.fd ≡ some a → k ≡ j =
      λ k z e f. omega (arith, one (suc k) z e f) in
    elim (Bool-cases (is_marked x)) [
      | inl e ↦ rw e (full_loop-revents m xs (activate (m x.fd) x r) j y a there h own others)
      | inr e ↦ rw e (full_loop-revents m xs r j y a there h own others)
    ]
