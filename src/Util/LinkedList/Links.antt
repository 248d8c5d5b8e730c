-- ===== src/Util/LinkedList/Links.antt =====
-- Nodes tied both ways.
use restful_cweb.Prelude.{
  update, update_self, update_other, ℕ, ◌≡◌, refl, sym, ◌∙◌, List, [], ◌∷◌, ◌++◌,
}
use restful_cweb.Util.LinkedList.Chain.{NotIn, AreNodes, first_or, last_or, last_or-ne}

-- The nodes stand between `b` and `a`.
abbrev pub Tied : (pre next : ℕ → ℕ) → ℕ → List ℕ → ℕ → Type 0
Tied pre next b [] a = Unit {0}
Tied pre next b (x ∷ xs) a = (pre x ≡ b) × (next x ≡ first_or xs a) × Tied pre next x xs a

pub first_or-append : (xs ys : List ℕ) (d : ℕ) → first_or (xs ++ ys) d ≡ first_or xs (first_or ys d)
first_or-append [] ys d = refl
first_or-append (x ∷ xs) ys d = refl

pub last_or-append : (xs ys : List ℕ) (d : ℕ) → last_or (xs ++ ys) d ≡ last_or ys (last_or xs d)
last_or-append [] ys d = refl
last_or-append (x ∷ xs) ys d = last_or-append xs ys x

pub Tied-left :
    (pre next : ℕ → ℕ) (b a : ℕ) (xs ys : List ℕ)
    → Tied pre next b (xs ++ ys) a
    → Tied pre next b xs (first_or ys a)
Tied-left pre next b a [] ys t = tt
Tied-left pre next b a (x ∷ xs) ys t =
    (t.0, t.1 ∙ first_or-append xs ys a, Tied-left pre next x a xs ys t.2)

pub Tied-right :
    (pre next : ℕ → ℕ) (b a : ℕ) (xs ys : List ℕ)
    → Tied pre next b (xs ++ ys) a
    → Tied pre next (last_or xs b) ys a
Tied-right pre next b a [] ys t = t
Tied-right pre next b a (x ∷ xs) ys t = Tied-right pre next x a xs ys t.2

pub Tied-join :
    (pre next : ℕ → ℕ) (b a : ℕ) (xs ys : List ℕ)
    → Tied pre next b xs (first_or ys a)
    → Tied pre next (last_or xs b) ys a
    → Tied pre next b (xs ++ ys) a
Tied-join pre next b a [] ys t u = u
Tied-join pre next b a (x ∷ xs) ys t u =
    (t.0, t.1 ∙ sym (first_or-append xs ys a), Tied-join pre next x a xs ys t.2 u)

-- Changes at nodes that are not among them.
pub Tied-update_next :
    (pre next : ℕ → ℕ) (p v b a : ℕ) (xs : List ℕ)
    → NotIn p xs
    → Tied pre next b xs a
    → Tied pre (update next p v) b xs a
Tied-update_next pre next p v b a [] n t = tt
Tied-update_next pre next p v b a (x ∷ xs) n t =
    (t.0, update_other next p v x n.0 ∙ t.1, Tied-update_next pre next p v x a xs n.1 t.2)

pub Tied-update_pre :
    (pre next : ℕ → ℕ) (p v b a : ℕ) (xs : List ℕ)
    → NotIn p xs
    → Tied pre next b xs a
    → Tied (update pre p v) next b xs a
Tied-update_pre pre next p v b a [] n t = tt
Tied-update_pre pre next p v b a (x ∷ xs) n t =
    (update_other pre p v x n.0 ∙ t.0, t.1, Tied-update_pre pre next p v x a xs n.1 t.2)

-- The last of the nodes gets another one behind it, and the first one another one before it.
pub Tied-retie_next :
    (pre next : ℕ → ℕ) (b a c x : ℕ) (xs : List ℕ)
    → AreNodes (x ∷ xs)
    → Tied pre next b (x ∷ xs) a
    → Tied pre (update next (last_or xs x) c) b (x ∷ xs) c
Tied-retie_next pre next b a c x [] n t = (t.0, update_self next x c, tt)
Tied-retie_next pre next b a c x (y ∷ xs) n t = (
  t.0,
  update_other next (last_or xs y) c x (λ e. last_or-ne x y xs n.1.0 n.1.1 (sym e)) ∙ t.1,
  Tied-retie_next pre next x a c y xs n.2 t.2,
)

pub Tied-retie_pre :
    (pre next : ℕ → ℕ) (b a c x : ℕ) (xs : List ℕ)
    → AreNodes (x ∷ xs)
    → Tied pre next b (x ∷ xs) a
    → Tied (update pre x c) next c (x ∷ xs) a
Tied-retie_pre pre next b a c x xs n t =
    (update_self pre x c, t.1, Tied-update_pre pre next x c x a xs n.1 t.2)
