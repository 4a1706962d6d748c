-- ===== src/Matching/Resting.antt =====
-- The resting orders of one side as a queue in price-time priority, and taking an amount from its front:
-- the plain description that the fill functions are held to.
use naoto_exchange.Common.{
  ℕ, ◌+◌, ◌-◌, ◌≤◌, List, [], ◌∷◌, ◌++◌, append_assoc, ◌≡◌, ◌≢◌, refl, ap, ◌∙◌, Bool-cases, inl,
  inr, arith, ◌==◌, leb, if◌then◌else◌, ℤ,
}
use naoto_exchange.Wire.{OrderSide}
use naoto_exchange.Matching.Level.{OrderNode, set_amount}
use naoto_exchange.Matching.Book.{Book}
use naoto_exchange.Matching.BidAsk.Fill.{is_worse}

-- The resting orders of a side, best price first and oldest first at each price.
abbrev pub resting : Book → List OrderNode
resting [] = []
resting (l ∷ ls) = l.orders ++ resting ls

-- Those that an order of side `s` with this price may trade with, and those behind them.
abbrev pub within : OrderSide → ℤ → Book → List OrderNode
within s p [] = []
within s p (l ∷ ls) = if is_worse s l.price p then [] else l.orders ++ within s p ls

abbrev pub beyond : OrderSide → ℤ → Book → List OrderNode
beyond s p [] = []
beyond s p (l ∷ ls) = if is_worse s l.price p then l.orders ++ resting ls else beyond s p ls

-- What is left of a queue of orders once an amount has been taken from its front.
abbrev pub after_taking : ℕ → List OrderNode → List OrderNode
after_taking a [] = []
after_taking a (n ∷ ns) =
    if a == 0
    then n ∷ ns
    else (if leb n.order.amount a
        then after_taking (a - n.order.amount) ns
        else set_amount (n.order.amount - a) n ∷ ns)

abbrev pub total_of : List OrderNode → ℕ
total_of [] = 0
total_of (n ∷ ns) = n.order.amount + total_of ns

pub minus_zero : (a : ℕ) → a ≡ a - 0
minus_zero a = omega arith

pub minus-add : (a b c : ℕ) → a - (b + c) ≡ a - b - c
minus-add a b c = omega arith

pub zero_minus : (a : ℕ) → 0 - a ≡ 0
zero_minus a = omega arith

pub minus_of_le : (a b : ℕ) → a ≤ b → a - b ≡ 0
minus_of_le a b h = omega arith

pub total_of-append : (xs ys : List OrderNode) → total_of (xs ++ ys) ≡ total_of xs + total_of ys
total_of-append [] ys = omega arith
total_of-append (n ∷ xs) ys = omega (arith, total_of-append xs ys)

pub after_taking-used :
    (a : ℕ) (n : OrderNode) (ns : List OrderNode)
    → a ≢ 0
    → n.order.amount ≤ a
    → after_taking a (n ∷ ns) ≡ after_taking (a - n.order.amount) ns
after_taking-used a n ns h k = ground arith

pub after_taking-zero : (ns : List OrderNode) → after_taking 0 ns ≡ ns
after_taking-zero [] = refl
after_taking-zero (n ∷ ns) = refl

pub after_taking-append :
    (a : ℕ) (xs ys : List OrderNode)
    → after_taking a (xs ++ ys) ≡ after_taking a xs ++ after_taking (a - total_of xs) ys
after_taking-append a [] ys = ap (λ k. after_taking k ys) (minus_zero a)
after_taking-append a (n ∷ xs) ys = ground (
  arith,
  after_taking-append (a - n.order.amount) xs ys,
  after_taking-zero ys,
  minus-add a n.order.amount (total_of xs),
  zero_minus (n.order.amount + total_of xs),
  minus_of_le a (n.order.amount + total_of xs),
)

pub within-beyond : (s : OrderSide) (p : ℤ) (b : Book) → within s p b ++ beyond s p b ≡ resting b
within-beyond s p [] = refl
within-beyond s p (l ∷ ls) = elim (Bool-cases (is_worse s l.price p)) [
  | inl t ↦ rw t refl
  | inr t ↦ rw t (
      append_assoc l.orders (within s p ls) (beyond s p ls)
      ∙ ap (λ x. l.orders ++ x) (within-beyond s p ls))
]

-- Taking removes what it can, and no more.
pub total_of-after_taking :
    (a : ℕ) (ns : List OrderNode) → total_of (after_taking a ns) ≡ total_of ns - a
total_of-after_taking a [] = omega arith
total_of-after_taking a (n ∷ ns) = ground (arith, total_of-after_taking (a - n.order.amount) ns)
