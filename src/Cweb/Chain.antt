-- ===== src/Cweb/Chain.antt =====
-- The chain of handlers: it ends, and each handler runs once at most, in order.
use restful_cweb.Prelude.{
  ℕ, zero, suc, ◌+◌, ◌-◌, ◌≤◌, ◌<◌, min, ◌≡◌, refl, sym, ap, ◌∙◌, ◌⊎◌, inl, inr, List, [], ◌∷◌,
  ◌++◌, Option, none, some, arith, get_elem?, length,
}
use restful_cweb.Cweb.{
  Script, done, act, next, Event, begins, acts, Run, finished, bad_call, out_of_fuel, after,
  continue, run, start,
}

-- The indices of the handlers that begin.
abbrev pub begun : List Event → List ℕ
begun [] = []
begun (begins i ∷ t) = i ∷ begun t
begun (acts e ∷ t) = begun t

-- `n` numbers from `i` on.
abbrev pub range_from : ℕ → ℕ → List ℕ
range_from i zero = []
range_from i (suc n) = i ∷ range_from (i + 1) n

begun-append : (t u : List Event) → begun (t ++ u) ≡ begun t ++ begun u
begun-append [] u = refl
begun-append (begins i ∷ t) u = ap (λ l. i ∷ l) (begun-append t u)
begun-append (acts e ∷ t) u = begun-append t u

abbrev pub AllCallable : List (Option Script) → Type 0
AllCallable [] = Unit {0}
AllCallable (none ∷ hs) = ⊥
AllCallable (some h ∷ hs) = AllCallable hs

-- The handlers that a run which goes from index `i` to `j` starts.
abbrev span : ℕ → ℕ → ℕ → List ℕ
span n i j = range_from (min i n) (min j n - min i n)

-- A run from `i` ends, and starts the handlers between its first and its last index, in order.
abbrev pub Ends : ℕ → ℕ → Run → Type 0
Ends n i (finished t j) = (i ≤ j) × (begun t ≡ span n i j)
Ends n i bad_call = ⊥
Ends n i out_of_fuel = ⊥

range_from-append :
    (i a j b c : ℕ) → i + a ≡ j → a + b ≡ c → range_from i a ++ range_from j b ≡ range_from i c
range_from-append i zero j b c e f =
    let e' : j ≡ i = omega arith in let f' : b ≡ c = omega arith in rw (e', f')
range_from-append i (suc a) j b zero e f = absurd (omega arith)
range_from-append i (suc a) j b (suc c) e f =
    ap (λ l. i ∷ l) (range_from-append (i + 1) a j b c (omega arith) (omega arith))

span-append : (n i j k : ℕ) → i ≤ j → j ≤ k → span n i j ++ span n j k ≡ span n i k
span-append n i j k h l =
    range_from-append (min i n) (min j n - min i n) (min j n) (min k n - min j n)
      (min k n - min i n) (omega arith) (omega arith)

after-Ends :
    (n i j : ℕ) (t : List Event) (r : Run)
    → i ≤ j
    → begun t ≡ span n i j
    → Ends n j r
    → Ends n i (after t r)
after-Ends n i j t (finished u k) h e (l, e') =
    (omega arith, begun-append t u ∙ rw (e, e') (span-append n i j k h l))
after-Ends n i j t bad_call h e r = r
after-Ends n i j t out_of_fuel h e r = r

continue-Ends :
    (n i : ℕ) (r : Run) (k : ℕ → Run)
    → Ends n i r
    → ((j : ℕ) → i ≤ j → Ends n j (k j))
    → Ends n i (continue r k)
continue-Ends n i (finished t j) k (h, e) rest = after-Ends n i j t (k j) h e (rest j h)
continue-Ends n i bad_call k r rest = r
continue-Ends n i out_of_fuel k r rest = r

get_callable :
    (hs : List (Option Script)) (i : ℕ)
    → AllCallable hs
    → ((get_elem? hs i ≡ none) × (length hs ≤ i))
      ⊎ ((h : Script) × (get_elem? hs i ≡ some (some h)) × (i < length hs))
get_callable [] i c = inl (refl, omega arith)
get_callable (none ∷ hs) i c = absurd c
get_callable (some h ∷ hs) zero c = inr (h, refl, omega arith)
get_callable (some h ∷ hs) (suc i) c = elim (get_callable hs i c) [
  | inl past ↦ inl (past.0, omega (arith, past.1))
  | inr there ↦ inr (there.0, there.1, omega (arith, there.2))
]

one_step : (n i : ℕ) → i < n → span n i (i + 1) ≡ i ∷ []
one_step n i h =
    let e : min i n ≡ i = omega arith in let f : min (i + 1) n - i ≡ 1 = omega arith in rw (e, f)

-- Behind the last handler a call of `Next` only steps the index.
skip-Ends : (n i : ℕ) (r : Run) → n ≤ i → Ends n (i + 1) r → Ends n i r
skip-Ends n i (finished t j) h (l, e) =
    let a : min (i + 1) n ≡ min i n = omega arith in (omega arith, e ∙ rw a)
skip-Ends n i bad_call h r = r
skip-Ends n i out_of_fuel h r = r

module _ (hs : List (Option Script)) (callable : AllCallable hs) where
  -- Fuel for the handlers that are left is enough.
  run-Ends : (f i : ℕ) (s : Script) → length hs ≤ f + i → Ends (length hs) i (run f hs i s)
  unfolding run
  run-Ends f i done h =
      let e : min i (length hs) - min i (length hs) ≡ 0 = omega arith in (omega arith, rw e)
  run-Ends f i (act e s) h =
      let z : min i (length hs) - min i (length hs) ≡ 0 = omega arith in
      after-Ends (length hs) i i (acts e ∷ []) (run f hs i s) (omega arith) (rw z)
        (run-Ends f i s h)
  run-Ends zero i (next s) h = elim (get_callable hs i callable) [
    | inl past ↦
        rw (past.0, run)
          (skip-Ends (length hs) i (run zero hs (i + 1) s) past.1
            (run-Ends zero (i + 1) s (omega arith)))
    | inr there ↦ absurd (omega (arith, there.2))
  ]
  run-Ends (suc f) i (next s) h = elim (get_callable hs i callable) [
    | inl past ↦
        rw (past.0, run)
          (skip-Ends (length hs) i (run (suc f) hs (i + 1) s) past.1
            (run-Ends (suc f) (i + 1) s (omega arith)))
    | inr there ↦
        let rest : (j : ℕ) → i + 1 ≤ j → Ends (length hs) j (run (suc f) hs j s) =
          λ j le. run-Ends (suc f) j s (omega arith) in
        rw (there.1, run)
          (after-Ends (length hs) i (i + 1) (begins i ∷ [])
            (continue (run f hs (i + 1) there.0) (λ j. run (suc f) hs j s)) (omega arith)
            (sym (one_step (length hs) i there.2))
            (continue-Ends (length hs) (i + 1) (run f hs (i + 1) there.0) (λ j. run (suc f) hs j s)
              (run-Ends f (i + 1) there.0 (omega arith)) rest))
  ]

first_Ends :
    (n : ℕ) (r : Run)
    → 0 < n
    → Ends n (0 + 1) r
    → (t : List Event) × (j : ℕ) × (after (begins 0 ∷ []) r ≡ finished t j)
      × (begun t ≡ range_from 0 (min j n))
      × (1 ≤ j)
first_Ends n (finished t j) h (le, b) =
    let a : min j n - min 0 n ≡ min j n = omega arith in
    let z : min 0 n ≡ 0 = omega arith in
    let whole : span n 0 j ≡ range_from 0 (min j n) = rw a (rw z) in
    (
      begins 0 ∷ t,
      j,
      refl,
      (after-Ends n 0 (0 + 1) (begins 0 ∷ []) (finished t j) (omega arith) (sym (one_step n 0 h))
            (le, b)).1
          ∙ whole,
      omega arith,
    )
first_Ends n bad_call h e = absurd e
first_Ends n out_of_fuel h e = absurd e

-- A chain of callable handlers ends, with fuel for one call a handler: the handlers that begin are
-- the first ones of the list, each once and in order, and the first begins if there is one.
pub start-finished :
    (hs : List (Option Script))
    → AllCallable hs
    → (t : List Event) × (j : ℕ) × (start hs ≡ finished t j)
      × (begun t ≡ range_from 0 (min j (length hs)))
      × (1 ≤ j)
unfolding run
start-finished [] callable = ([], 1, refl, refl, omega arith)
start-finished (none ∷ hs) callable = absurd callable
start-finished (some h ∷ hs) callable =
    let n = length (some h ∷ hs) in
    first_Ends n
      (continue (run (length hs) (some h ∷ hs) (0 + 1) h) (λ j. run n (some h ∷ hs) j done))
      (omega arith)
      (continue-Ends n (0 + 1) (run (length hs) (some h ∷ hs) (0 + 1) h)
        (λ j. run n (some h ∷ hs) j done)
        (run-Ends (some h ∷ hs) callable (length hs) (0 + 1) h (omega arith))
        (λ j le. run-Ends (some h ∷ hs) callable n j done (omega arith)))
