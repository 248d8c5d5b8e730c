-- ===== src/Util/LinkedList/Chain.antt =====
-- Lists of different addresses, and pointers from one to the next.
use restful_cweb.Prelude.{
  update, update_other, ℕ, ◌≡◌, ◌≢◌, refl, sym, ◌∙◌, List, [], ◌∷◌, ◌++◌, arith, ◌==◌, false,
}

abbrev pub NotIn : ℕ → List ℕ → Type 0
NotIn p [] = Unit {0}
NotIn p (x ∷ xs) = (p ≢ x) × NotIn p xs

-- Addresses of nodes, each once.
abbrev pub AreNodes : List ℕ → Type 0
AreNodes [] = Unit {0}
AreNodes (x ∷ xs) = (x ≢ 0) × NotIn x xs × AreNodes xs

abbrev pub first_or : List ℕ → ℕ → ℕ
first_or [] d = d
first_or (x ∷ xs) d = x

abbrev pub last_or : List ℕ → ℕ → ℕ
last_or [] d = d
last_or (x ∷ xs) d = last_or xs x

-- Each node's pointer leads to the one behind it. That of the last one may lead anywhere.
abbrev pub Linked : (ℕ → ℕ) → List ℕ → Type 0
Linked f [] = Unit {0}
Linked f (x ∷ []) = Unit {0}
Linked f (x ∷ y ∷ xs) = (f x ≡ y) × Linked f (y ∷ xs)

pub nonzero : (n : ℕ) → n ≢ 0 → (n == 0) ≡ false
nonzero n h = ground arith

pub NotIn-append : (p : ℕ) (xs ys : List ℕ) → NotIn p xs → NotIn p ys → NotIn p (xs ++ ys)
NotIn-append p [] ys a b = b
NotIn-append p (x ∷ xs) ys a b = (a.0, NotIn-append p xs ys a.1 b)

pub NotIn-left : (p : ℕ) (xs ys : List ℕ) → NotIn p (xs ++ ys) → NotIn p xs
NotIn-left p [] ys a = tt
NotIn-left p (x ∷ xs) ys a = (a.0, NotIn-left p xs ys a.1)

pub NotIn-right : (p : ℕ) (xs ys : List ℕ) → NotIn p (xs ++ ys) → NotIn p ys
NotIn-right p [] ys a = a
NotIn-right p (x ∷ xs) ys a = NotIn-right p xs ys a.1

pub AreNodes-right : (xs ys : List ℕ) → AreNodes (xs ++ ys) → AreNodes ys
AreNodes-right [] ys a = a
AreNodes-right (x ∷ xs) ys a = AreNodes-right xs ys a.2

pub AreNodes-snoc :
    (xs : List ℕ) (v : ℕ) → AreNodes xs → v ≢ 0 → NotIn v xs → AreNodes (xs ++ v ∷ [])
AreNodes-snoc [] v a n b = (n, tt, tt)
AreNodes-snoc (x ∷ xs) v a n b =
    (a.0, NotIn-append x xs (v ∷ []) a.1 (λ e. b.0 (sym e), tt), AreNodes-snoc xs v a.2 n b.1)

-- The last of the nodes behind `x` is not `x`.
pub last_or-ne : (p x : ℕ) (xs : List ℕ) → p ≢ x → NotIn p xs → p ≢ last_or xs x
last_or-ne p x [] h a = h
last_or-ne p x (y ∷ xs) h a = last_or-ne p y xs a.0 a.1

-- A change at a node that is not among them, or that is the last one.
pub Linked-update :
    (f : ℕ → ℕ) (p v : ℕ) (xs : List ℕ) → NotIn p xs → Linked f xs → Linked (update f p v) xs
Linked-update f p v [] a l = tt
Linked-update f p v (x ∷ []) a l = tt
Linked-update f p v (x ∷ y ∷ xs) a l =
    (update_other f p v x a.0 ∙ l.0, Linked-update f p v (y ∷ xs) a.1 l.1)

pub Linked-update_last :
    (f : ℕ → ℕ) (v x : ℕ) (xs : List ℕ)
    → AreNodes (x ∷ xs)
    → Linked f (x ∷ xs)
    → Linked (update f (last_or xs x) v) (x ∷ xs)
Linked-update_last f v x [] a l = tt
Linked-update_last f v x (y ∷ xs) a l = (
  update_other f (last_or xs y) v x (λ e. last_or-ne x y xs a.1.0 a.1.1 (sym e)) ∙ l.0,
  Linked-update_last f v y xs a.2 l.1,
)

-- A node behind the last one.
pub Linked-snoc :
    (f : ℕ → ℕ) (v x : ℕ) (xs : List ℕ)
    → Linked f (x ∷ xs)
    → f (last_or xs x) ≡ v
    → Linked f (x ∷ (xs ++ v ∷ []))
Linked-snoc f v x [] l e = (e, tt)
Linked-snoc f v x (y ∷ xs) l e = (l.0, Linked-snoc f v y xs l.1 e)

pub last_or-snoc : (xs : List ℕ) (v x : ℕ) → last_or (xs ++ v ∷ []) x ≡ v
last_or-snoc [] v x = refl
last_or-snoc (y ∷ xs) v x = last_or-snoc xs v y

pub last_or-node : (x : ℕ) (xs : List ℕ) → AreNodes (x ∷ xs) → last_or xs x ≢ 0
last_or-node x [] a = a.0
last_or-node x (y ∷ xs) a = last_or-node y xs a.2
