-- ===== src/Matching/Book/Sorted.antt =====
-- The order of the price levels of one side, and what the operations of the book keep of it.
use naoto_exchange.Common.{
  ℕ, zero, suc, List, [], ◌∷◌, none, some, false, ◌≡◌, refl, ◌⊎◌, inl, inr, arith, All,
  Option-cases, Bool-cases, ℤ, ◌<ℤ◌, eqb_ℤ, eq_of_parts, eqb_ℤ→eq, subst, sym, ◌∙◌, ◌++◌,
}
use naoto_exchange.Wire.{OrderSide, buy, sell}
use naoto_exchange.Matching.Level.{
  OrderNode, PriceLevel, new_level, add_order, delete_order, is_empty,
}
use naoto_exchange.Matching.Book.{
  Book, get_level, set_level, insert_level, remove_level, Added, add_limit_order,
  delete_limit_order,
}

-- `IsBetter s a b`: on side `s` the price `a` is served strictly before the price `b`.
abbrev pub IsBetter : OrderSide → ℤ → ℤ → Type 0
IsBetter buy a b = b <ℤ a
IsBetter sell a b = a <ℤ b

abbrev pub IsSorted : OrderSide → Book → Type 0
IsSorted s [] = Unit {0}
IsSorted s (l ∷ ls) = All (λ k. IsBetter s l.price k.price) ls × IsSorted s ls

-- No level is empty.
abbrev pub IsLive : Book → Type 0
IsLive b = All (λ l. is_empty l ≡ false) b

pub All-mono {κ μ} :
    (P : PriceLevel → Type κ) (Q : PriceLevel → Type μ) (b : Book)
    → ((l : PriceLevel) → P l → Q l)
    → All P b
    → All Q b
All-mono P Q [] h a = tt
All-mono P Q (l ∷ ls) h a = (h l a.0, All-mono P Q ls h a.1)

module _ {κ} (P : PriceLevel → Type κ) (p : ℤ) where
  pub All-get_level : (b : Book) (l : PriceLevel) → All P b → get_level p b ≡ some l → P l
  unfolding get_level
  All-get_level [] l a e = absurd (cc)
  All-get_level (k ∷ ls) l a e = ground (arith, All-get_level ls l a.1)

  pub All-set_level : (b : Book) (l : PriceLevel) → P l → All P b → All P (set_level p l b)
  unfolding set_level
  All-set_level [] l h a = tt
  All-set_level (k ∷ ls) l h a = ground (arith, All-set_level ls l h a.1)

  pub All-remove_level : (b : Book) → All P b → All P (remove_level p b)
  unfolding remove_level
  All-remove_level [] a = tt
  All-remove_level (k ∷ ls) a = ground (arith, All-remove_level ls a.1)

pub All-insert_level {κ} :
    (P : PriceLevel → Type κ) (s : OrderSide) (b : Book) (l : PriceLevel)
    → P l
    → All P b
    → All P (insert_level s l b)
unfolding insert_level
All-insert_level P s [] l h a = (h, tt)
All-insert_level P s (k ∷ ls) l h a = ground (arith, All-insert_level P s ls l h a.1)

-- The price of the level that `get_level` finds.
pub price-get_level : (p : ℤ) (b : Book) (l : PriceLevel) → get_level p b ≡ some l → l.price ≡ p
unfolding get_level
price-get_level p [] l e = cc
price-get_level p (k ∷ ls) l e = ground (arith, eq_of_parts k.price p, price-get_level p ls l)

pub IsSorted-remove_level :
    (s : OrderSide) (p : ℤ) (b : Book) → IsSorted s b → IsSorted s (remove_level p b)
unfolding remove_level
IsSorted-remove_level s p [] h = tt
IsSorted-remove_level s p (k ∷ ls) h = ground (
  arith,
  All-remove_level (λ (l : PriceLevel). IsBetter s k.price l.price) p ls h.0,
  IsSorted-remove_level s p ls h.1,
)

-- A level that keeps its price may take the place of the level at that price.
pub IsSorted-set_level :
    (s : OrderSide) (p : ℤ) (old l : PriceLevel) (b : Book)
    → get_level p b ≡ some old
    → l.price ≡ p
    → IsSorted s b
    → IsSorted s (set_level p l b)
unfolding set_level get_level
IsSorted-set_level s p old l [] f e h = tt
IsSorted-set_level s p old l (k ∷ ls) f e h = elim (Bool-cases (eqb_ℤ k.price p)) [
  | inl t ↦
      rw (t, set_level)
        (subst (λ q. All (λ j. IsBetter s q j.price) ls) (eqb_ℤ→eq k.price p t ∙ sym e) h.0, h.1)
  | inr t ↦
      let found : get_level p ls ≡ some old = rw (t, get_level) at f in
      let better : IsBetter s k.price l.price =
        subst (IsBetter s k.price) (price-get_level p ls old found ∙ sym e)
          (All-get_level (λ j. IsBetter s k.price j.price) p ls old h.0 found) in
      rw (t, set_level)
        (
          All-set_level (λ j. IsBetter s k.price j.price) p ls l better h.0,
          IsSorted-set_level s p old l ls found e h.1,
        )
]

-- Strictly better, than a price and so than all that are worse.
pub IsBetter-trans :
    (s : OrderSide) (p q : ℤ) (b : Book)
    → IsBetter s p q
    → All (λ k. IsBetter s q k.price) b
    → All (λ k. IsBetter s p k.price) b
IsBetter-trans s p q [] h a = tt
IsBetter-trans buy p q (k ∷ ls) h a = (omega arith, IsBetter-trans buy p q ls h a.1)
IsBetter-trans sell p q (k ∷ ls) h a = (omega arith, IsBetter-trans sell p q ls h a.1)

-- A price that no level has is inserted between those that are better and those that are worse.
pub IsSorted-insert_level :
    (s : OrderSide) (l : PriceLevel) (b : Book)
    → get_level l.price b ≡ none
    → IsSorted s b
    → IsSorted s (insert_level s l b)
unfolding insert_level get_level
IsSorted-insert_level s l [] e h = (tt, tt)
IsSorted-insert_level buy l (k ∷ ls) e h = ground (
  arith,
  IsBetter-trans buy l.price k.price ls,
  IsSorted-insert_level buy l ls,
  All-insert_level (λ (j : PriceLevel). IsBetter buy k.price j.price) buy ls l,
)
IsSorted-insert_level sell l (k ∷ ls) e h = ground (
  arith,
  IsBetter-trans sell l.price k.price ls,
  IsSorted-insert_level sell l ls,
  All-insert_level (λ (j : PriceLevel). IsBetter sell k.price j.price) sell ls l,
)

add_order-live : (n : OrderNode) (l : PriceLevel) → is_empty (add_order n l) ≡ false
unfolding add_order
add_order-live n l = go l.orders
  where
    go : (ns : List OrderNode) → is_empty (record l { orders = ns ++ n ∷ [] }) ≡ false
    go [] = refl
    go (m ∷ ns) = refl

-- What `AddLimitOrder` does to the levels: it inserts a level at a new price, or changes the level
-- at an old one.
abbrev pub AddedTo : OrderSide → OrderNode → Book → Added → Type 0
AddedTo s n b r =
    ((get_level n.order.price b ≡ none)
      × (r.level ≡ add_order n (new_level n.order.price))
      × (r.book ≡ insert_level s r.level b))
    ⊎ ((l : PriceLevel) × (get_level n.order.price b ≡ some l)
        × (r.level ≡ add_order n l)
        × (r.book ≡ set_level n.order.price r.level b))

pub add_limit_order-AddedTo :
    (s : OrderSide) (n : OrderNode) (free : ℕ) (b : Book) (r : Added)
    → add_limit_order s n free b ≡ some r
    → AddedTo s n b r
unfolding add_limit_order
add_limit_order-AddedTo s n zero b r e = elim (Option-cases (get_level n.order.price b)) [
  | inl f ↦ absurd (ground arith)
  | inr (l, f) ↦ inr (l, ground arith, ground arith, ground arith)
]
add_limit_order-AddedTo s n (suc free) b r e = elim (Option-cases (get_level n.order.price b)) [
  | inl f ↦ inl (ground arith, ground arith, ground arith)
  | inr (l, f) ↦ inr (l, ground arith, ground arith, ground arith)
]

price-add_order : (n : OrderNode) (l : PriceLevel) → (add_order n l).price ≡ l.price
unfolding add_order
price-add_order n l = refl

-- `AddLimitOrder` keeps the order of the levels, leaves none empty, and adds no price but that of
-- the order.
module _ (s : OrderSide) (n : OrderNode) (b : Book) (r : Added) where
  pub add_limit_order-IsSorted : AddedTo s n b r → IsSorted s b → IsSorted s r.book
  add_limit_order-IsSorted (inl (none_there, level, e)) h = rw e (
      IsSorted-insert_level s r.level b
        (rw (level, price-add_order n (new_level n.order.price)) none_there) h)
  add_limit_order-IsSorted (inr (l, there, level, e)) h = rw e (
      IsSorted-set_level s n.order.price l r.level b there
        (rw (level, price-add_order n l) (price-get_level n.order.price b l there)) h)

  pub add_limit_order-All {κ} :
      (Q : ℤ → Type κ)
      → AddedTo s n b r
      → Q n.order.price
      → All (λ l. Q l.price) b
      → All (λ l. Q l.price) r.book
  add_limit_order-All Q (inl (none_there, level, e)) q a = rw e (
      All-insert_level (λ l. Q l.price) s b r.level
        (rw (level, price-add_order n (new_level n.order.price)) q) a)
  add_limit_order-All Q (inr (l, there, level, e)) q a = rw e (
      All-set_level (λ j. Q j.price) n.order.price b r.level
        (rw (level, price-add_order n l) (All-get_level (λ j. Q j.price) n.order.price b l a there))
        a)

  pub add_limit_order-IsLive : AddedTo s n b r → IsLive b → IsLive r.book
  add_limit_order-IsLive (inl (none_there, level, e)) a =
      rw e (All-insert_level _ s b r.level (rw (level) (add_order-live n _)) a)
  add_limit_order-IsLive (inr (l, there, level, e)) a =
      rw e (All-set_level _ n.order.price b r.level (rw (level) (add_order-live n l)) a)

-- `DeleteOrder` changes or removes one level.
abbrev pub DeletedFrom : OrderNode → Book → Book → Type 0
DeletedFrom n b b' =
    (b' ≡ b)
    ⊎ ((b' ≡ remove_level n.order.price b)
        ⊎ ((l : PriceLevel) × (get_level n.order.price b ≡ some l)
            × (is_empty (delete_order n l) ≡ false)
            × (b' ≡ set_level n.order.price (delete_order n l) b)))

pub delete_limit_order-DeletedFrom :
    (n : OrderNode) (free : ℕ) (b : Book) → DeletedFrom n b (delete_limit_order n free b).book
unfolding delete_limit_order
delete_limit_order-DeletedFrom n free b = elim (Option-cases (get_level n.order.price b)) [
  | inl e ↦ inl (ground arith)
  | inr (l, e) ↦ elim (Bool-cases (is_empty (delete_order n l))) [
    | inl last ↦ inr (inl ground arith)
    | inr more ↦ inr (inr (l, e, more, ground arith))
  ]
]

price-delete_order : (n : OrderNode) (l : PriceLevel) → (delete_order n l).price ≡ l.price
unfolding delete_order
price-delete_order n l = refl

module _ (n : OrderNode) (b b' : Book) where
  pub DeletedFrom-IsSorted : (s : OrderSide) → DeletedFrom n b b' → IsSorted s b → IsSorted s b'
  DeletedFrom-IsSorted s (inl e) h = rw e h
  DeletedFrom-IsSorted s (inr (inl e)) h = rw e (IsSorted-remove_level s n.order.price b h)
  DeletedFrom-IsSorted s (inr (inr (l, there, more, e))) h = rw e (
      IsSorted-set_level s n.order.price l (delete_order n l) b there
        (rw (price-delete_order n l) (price-get_level n.order.price b l there)) h)

  pub DeletedFrom-All {κ} :
      (Q : ℤ → Type κ) → DeletedFrom n b b' → All (λ l. Q l.price) b → All (λ l. Q l.price) b'
  DeletedFrom-All Q (inl e) a = rw e a
  DeletedFrom-All Q (inr (inl e)) a = rw e (All-remove_level (λ j. Q j.price) n.order.price b a)
  DeletedFrom-All Q (inr (inr (l, there, more, e))) a = rw e (
      All-set_level (λ j. Q j.price) n.order.price b (delete_order n l)
        (rw (price-delete_order n l) (All-get_level (λ j. Q j.price) n.order.price b l a there)) a)

  pub DeletedFrom-IsLive : DeletedFrom n b b' → IsLive b → IsLive b'
  DeletedFrom-IsLive (inl e) a = rw e a
  DeletedFrom-IsLive (inr (inl e)) a = rw e (All-remove_level _ n.order.price b a)
  DeletedFrom-IsLive (inr (inr (l, there, more, e))) a =
      rw e (All-set_level _ n.order.price b (delete_order n l) more a)
