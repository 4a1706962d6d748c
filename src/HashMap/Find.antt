-- ===== src/HashMap/Find.antt =====
-- The first loop of `DeleteNode` of market_server/common/include/flat_hash_map.hpp, in a table none of
-- whose hashes has more than sixteen keys.
use naoto_exchange.Common.{
  ℕ, zero, suc, ◌+◌, ◌*◌, ◌%◌, ◌≤◌, ◌<◌, List, [], ◌∷◌, true, false, none, some, ◌≡◌, inl, inr,
  refl, sym, subst, ◌∙◌, arith, ◌==◌, ◌||◌, if◌then◌else◌, Bool-cases,
}
use native.Mathlib.Nat.{mod-eq_of_lt}
use naoto_exchange.HashMap
use naoto_exchange.HashMap.Table.{Slot, Slots, entry, empty_slot, empty_marker}
use naoto_exchange.HashMap.Update.{find_from}
use naoto_exchange.HashMap.Buckets.{Buckets}
use naoto_exchange.HashMap.Rows.{Row}
use naoto_exchange.HashMap.Lookup.{Represents, next_bucket, next_bucket_lem}

-- A slot that ends both loops: a free one, or one whose entry is at its home.
abbrev pub IsHead : Slot → Type 0
IsHead s = ((s.tag == empty_marker) || (s.tag == 0)) ≡ true

Row-IsHead : (t : Slots) (base : ℕ) (es : List (ℕ × ℕ)) → Row t base 16 0 es → IsHead (t (base + 0))
Row-IsHead t base [] (p, r) = rw p refl
Row-IsHead t base (e ∷ es) (p, r) = rw p refl

-- The first slot behind those of a hash.
pub next-IsHead :
    (size b : ℕ) (B : Buckets) (t : Slots)
    → Represents size B t
    → b < size
    → IsHead (t ((b * 16 + 16) % (size * 16)))
next-IsHead size b B t w h =
    let (e, l) = next_bucket_lem size b h in
    let at : next_bucket size b * 16 + 0 ≡ next_bucket size b * 16 = omega arith in
    rw e (subst (λ i. IsHead (t i)) at (Row-IsHead t (next_bucket size b * 16) _ (w.row _ l)))

module _ (size k : ℕ) (t : Slots) where
  find_from-IsHead :
      (rounds i dib : ℕ) → IsHead (t i) → 0 < dib → find_from size t k rounds i dib ≡ none
  unfolding find_from
  find_from-IsHead zero i dib h l = refl
  find_from-IsHead (suc rounds) i dib h l = ground (arith, h)

  find_from-same :
      (rounds i dib j v : ℕ)
      → dib < 16
      → (k == j) ≡ true
      → t i ≡ entry dib j v
      → find_from size t k (suc rounds) i dib ≡ some i
  unfolding find_from
  find_from-same rounds i dib j v l y e =
      let same : j ≡ k = ground (arith, y) in rw (find_from, e, same) (ground arith)

  find_from-other :
      (rounds i dib j v : ℕ)
      → dib < 16
      → (k == j) ≡ false
      → t i ≡ entry dib j v
      → find_from size t k (suc rounds) i dib
        ≡ find_from size t k rounds ((i + 1) % (size * 16)) (dib + 1)
  unfolding find_from
  find_from-other rounds i dib j v l n e = rw (find_from, e) (ground (arith, n))

  find_from-empty : (rounds i dib : ℕ) → t i ≡ empty_slot → find_from size t k rounds i dib ≡ none
  unfolding find_from
  find_from-empty zero i dib e = refl
  find_from-empty (suc rounds) i dib e = rw (find_from, e) (ground arith)

-- The index behind one of the first fifteen slots of a hash.
pub behind :
    (size base i : ℕ)
    → base + 16 ≤ size * 16
    → i < 15
    → ((base + i) + 1) % (size * 16) ≡ base + suc i
behind size base i room l =
    let e : (base + i) + 1 ≡ base + suc i = omega arith in
    rw e (mod-eq_of_lt {n = base + suc i} {m = size * 16} (omega arith))

absent_cons :
    (k : ℕ) (e : ℕ × ℕ) (es : List (ℕ × ℕ))
    → HashMap.get_val k (e ∷ es) ≡ none
    → ((k == e.0) ≡ false) × (HashMap.get_val k es ≡ none)
unfolding HashMap.get_val
absent_cons k e es g = elim (Bool-cases (k == e.0)) [
  | inl y ↦ let h = subst (λ b. (if b then some e.1 else HashMap.get_val k es) ≡ none) y g in cc
  | inr y ↦ (y, subst (λ b. (if b then some e.1 else HashMap.get_val k es) ≡ none) y g)
]

pub find_from-absent :
    (size k rounds : ℕ) (t : Slots) (base c i : ℕ) (es : List (ℕ × ℕ))
    → base + 16 ≤ size * 16
    → i + suc c ≡ 16
    → IsHead (t ((base + 16) % (size * 16)))
    → Row t base (suc c) i es
    → HashMap.get_val k es ≡ none
    → find_from size t k rounds (base + i) i ≡ none
unfolding find_from
find_from-absent size k rounds t base c i [] room h head (p, r) g =
    find_from-empty size k t rounds (base + i) i p
find_from-absent size k zero t base c i (e ∷ es) room h head (p, r) g = refl
find_from-absent size k (suc rounds) t base zero i (e ∷ es) room h head (p, r) g =
    let (other, rest) = absent_cons k e es g in
    let last : (base + i) + 1 ≡ base + 16 = omega arith in
    find_from-other size k t rounds (base + i) i e.0 e.1 (omega arith) other p
    ∙ rw last (find_from-IsHead size k t rounds _ (i + 1) head (omega arith))
find_from-absent size k (suc rounds) t base (suc c) i (e ∷ es) room h head (p, r) g =
    let (other, rest) = absent_cons k e es g in
    let far : i + 1 ≡ suc i = omega arith in
    find_from-other size k t rounds (base + i) i e.0 e.1 (omega arith) other p
    ∙ rw (behind size base i room (omega arith), far)
        (find_from-absent size k rounds t base c (suc i) es room (omega arith) head r rest)

-- Where a key stands among the entries of its hash.
unfoldable pub index_of : ℕ → List (ℕ × ℕ) → ℕ
index_of k [] = 0
index_of k (e ∷ es) = let later = index_of k es in if k == e.0 then 0 else suc later

pub present_cons :
    (k x : ℕ) (e : ℕ × ℕ) (es : List (ℕ × ℕ))
    → (k == e.0) ≡ false
    → HashMap.get_val k (e ∷ es) ≡ some x
    → HashMap.get_val k es ≡ some x
unfolding HashMap.get_val
present_cons k x e es y g = subst (λ b. (if b then some e.1 else HashMap.get_val k es) ≡ some x) y g

pub index_of-same :
    (k : ℕ) (e : ℕ × ℕ) (es : List (ℕ × ℕ)) → (k == e.0) ≡ true → index_of k (e ∷ es) ≡ 0
unfolding index_of
index_of-same k e es y = rw (index_of, y) refl

pub index_of-other :
    (k : ℕ) (e : ℕ × ℕ) (es : List (ℕ × ℕ))
    → (k == e.0) ≡ false
    → index_of k (e ∷ es) ≡ suc (index_of k es)
unfolding index_of
index_of-other k e es y = rw (index_of, y) refl

pub none_of_nil : (k x : ℕ) → HashMap.get_val k [] ≡ some x → ⊥
unfolding HashMap.get_val
none_of_nil k x g = cc

found_here :
    (k size : ℕ) (t : Slots) (base i rounds : ℕ) (e : ℕ × ℕ) (es : List (ℕ × ℕ))
    → (k == e.0) ≡ true
    → i < 16
    → t (base + i) ≡ entry i e.0 e.1
    → find_from size t k (suc rounds) (base + i) i ≡ some (base + (i + index_of k (e ∷ es)))
found_here k size t base i rounds e es y l p =
    let at : i + 0 ≡ i = omega arith in
    rw (index_of-same k e es y, at) (find_from-same size k t rounds (base + i) i e.0 e.1 l y p)

pub find_from-present :
    (size k x rounds : ℕ) (t : Slots) (base c i : ℕ) (es : List (ℕ × ℕ))
    → base + 16 ≤ size * 16
    → i + suc c ≡ 16
    → c < rounds
    → Row t base (suc c) i es
    → HashMap.get_val k es ≡ some x
    → find_from size t k rounds (base + i) i ≡ some (base + (i + index_of k es))
find_from-present size k x rounds t base c i [] room h l r g = absurd (none_of_nil k x g)
find_from-present size k x zero t base c i (e ∷ es) room h l r g = absurd (omega arith)
find_from-present size k x (suc rounds) t base zero i (e ∷ []) room h l (p, r) g =
    elim (Bool-cases (k == e.0)) [
      | inl y ↦ found_here k size t base i rounds e [] y (omega arith) p
      | inr y ↦ absurd (none_of_nil k x (present_cons k x e [] y g))
    ]
find_from-present size k x (suc rounds) t base zero i (e ∷ f ∷ es) room h l (p, r) g = absurd r
find_from-present size k x (suc rounds) t base (suc c) i (e ∷ es) room h l (p, r) g =
    elim (Bool-cases (k == e.0)) [
      | inl y ↦ found_here k size t base i rounds e es y (omega arith) p
      | inr y ↦
          let far : i + 1 ≡ suc i = omega arith in
          let at : suc i + index_of k es ≡ i + suc (index_of k es) = omega arith in
          find_from-other size k t rounds (base + i) i e.0 e.1 (omega arith) y p
          ∙ rw (behind size base i room (omega arith), far, index_of-other k e es y, sym at)
              (find_from-present size k x rounds t base c (suc i) es room (omega arith)
                (omega arith) r (present_cons k x e es y g))
    ]
