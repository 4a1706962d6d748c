-- ===== src/Matching/Links/Segments.antt =====
-- Segments of a doubly linked list.
use mathlib.Core.Option.{some-injective}
use naoto_exchange.Common.{
  ℕ, List, [], ◌∷◌, ◌++◌, Option, some, ◌≡◌, ◌≢◌, refl, sym, ◌∙◌, subst, update, All, All-append,
  arith,
}

-- The first node of a list that goes on with `q`, and the last of one that comes after `p`.
abbrev pub head_or : List ℕ → Option ℕ → Option ℕ
head_or [] q = q
head_or (x ∷ xs) q = some x

abbrev pub last_or : Option ℕ → List ℕ → Option ℕ
last_or p [] = p
last_or p (x ∷ xs) = last_or (some x) xs

-- The nodes are linked to each other, the first back to `p` and the last on to `q`.
abbrev pub Segment : (ℕ → Option ℕ) → (ℕ → Option ℕ) → Option ℕ → List ℕ → Option ℕ → Type 0
Segment prev next p [] q = Unit
Segment prev next p (x ∷ xs) q =
    (prev x ≡ p) × (next x ≡ head_or xs q) × Segment prev next (some x) xs q

abbrev pub Lacks : ℕ → List ℕ → Type 0
Lacks a xs = All (λ x. x ≢ a) xs

abbrev pub Distinct : List ℕ → Type 0
Distinct [] = Unit
Distinct (x ∷ xs) = Lacks x xs × Distinct xs

pub update_other : (a j : ℕ) (v : Option ℕ) (f : ℕ → Option ℕ) → j ≢ a → update a v f j ≡ f j
unfolding update
update_other a j v f h = ground arith

pub update_same : (a : ℕ) (v : Option ℕ) (f : ℕ → Option ℕ) → update a v f a ≡ v
unfolding update
update_same a v f = ground arith

last-Lacks : (x y a : ℕ) (xs : List ℕ) → Lacks x (y ∷ xs) → last_or (some y) xs ≡ some a → x ≢ a
last-Lacks x y a [] h e i = h.0 (some-injective y a e ∙ sym i)
last-Lacks x y a (z ∷ zs) h e i = last-Lacks x z a zs h.1 e i

module _ (prev next : ℕ → Option ℕ) where
  pub update_next :
      (a : ℕ) (v p q : Option ℕ) (xs : List ℕ)
      → Lacks a xs
      → Segment prev next p xs q
      → Segment prev (update a v next) p xs q
  update_next a v p q [] h s = tt
  update_next a v p q (x ∷ xs) h s =
      (s.0, update_other a x v next h.0 ∙ s.1, update_next a v (some x) q xs h.1 s.2)

  pub update_prev :
      (a : ℕ) (v p q : Option ℕ) (xs : List ℕ)
      → Lacks a xs
      → Segment prev next p xs q
      → Segment (update a v prev) next p xs q
  update_prev a v p q [] h s = tt
  update_prev a v p q (x ∷ xs) h s =
      (update_other a x v prev h.0 ∙ s.0, s.1, update_prev a v (some x) q xs h.1 s.2)

  pub join :
      (p q : Option ℕ) (xs ys : List ℕ)
      → Segment prev next p xs (head_or ys q)
      → Segment prev next (last_or p xs) ys q
      → Segment prev next p (xs ++ ys) q
  join p q [] ys s t = t
  join p q (x ∷ []) ys s t = (s.0, s.1, t)
  join p q (x ∷ y ∷ xs) ys s t = (s.0, s.1, join (some x) q (y ∷ xs) ys s.2 t)

  pub split :
      (p q : Option ℕ) (xs ys : List ℕ)
      → Segment prev next p (xs ++ ys) q
      → Segment prev next p xs (head_or ys q) × Segment prev next (last_or p xs) ys q
  split p q [] ys s = (tt, s)
  split p q (x ∷ []) ys s = ((s.0, s.1, tt), s.2)
  split p q (x ∷ y ∷ xs) ys s = let r = split (some x) q (y ∷ xs) ys s.2 in ((s.0, s.1, r.0), r.1)

  -- Another end, for the nodes before the last.
  pub redirect_next :
      (x : ℕ) (p q v : Option ℕ) (xs : List ℕ)
      → Distinct (x ∷ xs)
      → Segment prev next p (x ∷ xs) q
      → (a : ℕ) → last_or (some x) xs ≡ some a
      → Segment prev (update a v next) p (x ∷ xs) v
  redirect_next x p q v [] d s a e =
      let same = some-injective x a e in
      (s.0, subst (λ b. update b v next x ≡ v) same (update_same x v next), tt)
  redirect_next x p q v (y ∷ xs) d s a e = (
    s.0,
    update_other a x v next (last-Lacks x y a xs d.0 e) ∙ s.1,
    redirect_next y (some x) q v xs d.1 s.2 a e,
  )

  -- Another start.
  pub redirect_prev :
      (x : ℕ) (p q v : Option ℕ) (xs : List ℕ)
      → Distinct (x ∷ xs)
      → Segment prev next p (x ∷ xs) q
      → Segment (update x v prev) next v (x ∷ xs) q
  redirect_prev x p q v xs d s = (update_same x v prev, s.1, update_prev x v (some x) q xs d.0 s.2)

pub last_some : (x : ℕ) (xs : List ℕ) → (t : ℕ) × (last_or (some x) xs ≡ some t)
last_some x [] = (x, refl)
last_some x (y ∷ ys) = last_some y ys

pub last-append : (p : Option ℕ) (xs ys : List ℕ) → last_or p (xs ++ ys) ≡ last_or (last_or p xs) ys
last-append p [] ys = refl
last-append p (x ∷ xs) ys = last-append (some x) xs ys

pub head-append : (xs ys : List ℕ) (q : Option ℕ) → head_or (xs ++ ys) q ≡ head_or xs (head_or ys q)
head-append [] ys q = refl
head-append (x ∷ xs) ys q = refl

Lacks-in : (x a : ℕ) (xs ys : List ℕ) → Lacks x (xs ++ a ∷ ys) → a ≢ x
Lacks-in x a [] ys h = h.0
Lacks-in x a (z ∷ zs) ys h = Lacks-in x a zs ys h.1

Lacks-start : (x : ℕ) (xs ys : List ℕ) → Lacks x (xs ++ ys) → Lacks x xs
Lacks-start x [] ys h = tt
Lacks-start x (z ∷ zs) ys h = (h.0, Lacks-start x zs ys h.1)

Lacks-without : (x a : ℕ) (xs ys : List ℕ) → Lacks x (xs ++ a ∷ ys) → Lacks x (xs ++ ys)
Lacks-without x a [] ys h = h.1
Lacks-without x a (z ∷ zs) ys h = (h.0, Lacks-without x a zs ys h.1)

-- The parts of a list without repetitions.
pub Lacks-last :
    (xs ys : List ℕ) (x a : ℕ) → Distinct (x ∷ xs ++ ys) → last_or (some x) xs ≡ some a → Lacks a ys
Lacks-last [] ys x a d e = subst (λ b. Lacks b ys) (some-injective x a e) d.0
Lacks-last (y ∷ xs) ys x a d e = Lacks-last xs ys y a d.1 e

pub Lacks-later : (xs ys : List ℕ) (a : ℕ) → Distinct (xs ++ a ∷ ys) → Lacks a xs
Lacks-later [] ys a d = tt
Lacks-later (x ∷ xs) ys a d = (λ e. Lacks-in x a xs ys d.0 (sym e), Lacks-later xs ys a d.1)

pub Distinct-end : (xs ys : List ℕ) → Distinct (xs ++ ys) → Distinct ys
Distinct-end [] ys d = d
Distinct-end (x ∷ xs) ys d = Distinct-end xs ys d.1

pub Distinct-start : (xs ys : List ℕ) → Distinct (xs ++ ys) → Distinct xs
Distinct-start [] ys d = tt
Distinct-start (x ∷ xs) ys d = (Lacks-start x xs ys d.0, Distinct-start xs ys d.1)

pub Distinct-without : (xs ys : List ℕ) (a : ℕ) → Distinct (xs ++ a ∷ ys) → Distinct (xs ++ ys)
Distinct-without [] ys a d = d.1
Distinct-without (x ∷ xs) ys a d = (Lacks-without x a xs ys d.0, Distinct-without xs ys a d.1)

pub Distinct-with : (xs : List ℕ) (a : ℕ) → Lacks a xs → Distinct xs → Distinct (xs ++ a ∷ [])
Distinct-with [] a h d = (tt, tt)
Distinct-with (x ∷ xs) a h d =
    (All-append (λ y. y ≢ x) xs (a ∷ []) d.0 (λ e. h.0 (sym e), tt), Distinct-with xs a h.1 d.1)
