-- ===== src/HashMap/Buckets.antt =====
-- What the table of market_server/common/include/flat_hash_map.hpp stands for: a list of entries for
-- each hash, and through them a function from keys to values.
use naoto_exchange.Common.{
  ℕ, List, [], ◌∷◌, ◌++◌, true, false, Option, none, some, ◌≡◌, inl, inr, refl, ap, subst, ◌∙◌,
  arith, All, ◌==◌, if◌then◌else◌, Bool-cases, Option-cases, update,
}
use naoto_exchange.HashMap
use naoto_exchange.HashMap.Table.{bucket_of}

abbrev pub Buckets : Type 0
Buckets = ℕ → List (ℕ × ℕ)

-- No key twice.
abbrev pub Distinct : List (ℕ × ℕ) → Type 0
Distinct [] = Unit
Distinct (e ∷ es) = (HashMap.get_val e.0 es ≡ none) × Distinct es

-- The value that a key has in the buckets.
unfoldable pub look_up : ℕ → ℕ → Buckets → Option ℕ
unfolding bucket_of HashMap.get_val
look_up size k B = HashMap.get_val k (B (bucket_of size k))

-- The entries of a hash with a key: one that is there keeps its value.
unfoldable pub put_entry : ℕ → ℕ → List (ℕ × ℕ) → List (ℕ × ℕ)
unfolding HashMap.get_val
put_entry k v es = elim (HashMap.get_val k es) [ some w ↦ es | none ↦ es ++ ((k, v) ∷ []) ]

unfoldable pub change_bucket : ℕ → ℕ → List (ℕ × ℕ) → Buckets → Buckets
unfolding update bucket_of
change_bucket size k es B = update (bucket_of size k) es B

abbrev pub or_else : Option ℕ → Option ℕ → Option ℕ
or_else none o = o
or_else (some v) o = some v

pub put_entry_absent :
    (k v : ℕ) (es : List (ℕ × ℕ))
    → HashMap.get_val k es ≡ none
    → put_entry k v es ≡ es ++ ((k, v) ∷ [])
unfolding put_entry
put_entry_absent k v es e = rw (put_entry, e) refl

pub put_entry_present :
    (k v w : ℕ) (es : List (ℕ × ℕ)) → HashMap.get_val k es ≡ some w → put_entry k v es ≡ es
unfolding put_entry
put_entry_present k v w es e = rw (put_entry, e) refl

get_val-snoc :
    (j k v : ℕ) (es : List (ℕ × ℕ))
    → HashMap.get_val j (es ++ ((k, v) ∷ []))
      ≡ or_else (HashMap.get_val j es) (if j == k then some v else none)
unfolding HashMap.get_val
get_val-snoc j k v [] = refl
get_val-snoc j k v (e ∷ es) = elim (Bool-cases (j == e.0)) [
  | inl y ↦ rw (HashMap.get_val, y) refl
  | inr y ↦ rw (HashMap.get_val, y) (get_val-snoc j k v es)
]

get_val_of_same :
    (j k : ℕ) (es : List (ℕ × ℕ)) → (j == k) ≡ true → HashMap.get_val j es ≡ HashMap.get_val k es
get_val_of_same j k es y = let e : j ≡ k = ground (arith, y) in ap (λ x. HashMap.get_val x es) e

or_else-none : (o : Option ℕ) → or_else o none ≡ o
or_else-none none = refl
or_else-none (some v) = refl

pub get_val-put_entry :
    (j k v : ℕ) (es : List (ℕ × ℕ))
    → HashMap.get_val j (put_entry k v es)
      ≡ (if j == k then or_else (HashMap.get_val k es) (some v) else HashMap.get_val j es)
get_val-put_entry j k v es = elim (Option-cases (HashMap.get_val k es)) [
  | inl e ↦
      rw (put_entry_absent k v es e, get_val-snoc j k v es)
        (elim (Bool-cases (j == k)) [
          | inl y ↦ rw (y, get_val_of_same j k es y, e) refl
          | inr y ↦ rw y (or_else-none _)
        ])
  | inr (w, e) ↦ rw (put_entry_present k v w es e) (elim (Bool-cases (j == k)) [
    | inl y ↦ rw (y, get_val_of_same j k es y, e) refl
    | inr y ↦ rw y refl
  ])
]

pub delete_node_lem :
    (j k : ℕ) (es : List (ℕ × ℕ))
    → Distinct es
    → HashMap.get_val j (HashMap.delete_node k es) ≡ (if j == k then none else HashMap.get_val j es)
unfolding HashMap.get_val HashMap.delete_node
delete_node_lem j k [] d = ground arith
delete_node_lem j k (e ∷ es) (p, d) = elim (Bool-cases (k == e.0)) [
  | inl y ↦ elim (Bool-cases (j == k)) [
    | inl z ↦ rw (HashMap.delete_node, y, z) (get_val_of_same j e.0 es (ground (arith, y, z)) ∙ p)
    | inr z ↦
        let x : (j == e.0) ≡ false = ground (arith, y, z) in
        rw (HashMap.delete_node, y, z, HashMap.get_val, x) refl
  ]
  | inr y ↦ elim (Bool-cases (j == e.0)) [
    | inl z ↦
        let x : (j == k) ≡ false = ground (arith, y, z) in
        rw (HashMap.delete_node, y, x, HashMap.get_val, z) refl
    | inr z ↦ rw (HashMap.delete_node, y, HashMap.get_val, z) (delete_node_lem j k es d)
  ]
]

pub delete_node-missing :
    (k : ℕ) (es : List (ℕ × ℕ)) → HashMap.get_val k es ≡ none → HashMap.delete_node k es ≡ es
unfolding HashMap.delete_node HashMap.get_val
delete_node-missing k [] g = refl
delete_node-missing k (e ∷ es) g = elim (Bool-cases (k == e.0)) [
  | inl y ↦ let h = subst (λ b. (if b then some e.1 else HashMap.get_val k es) ≡ none) y g in cc
  | inr y ↦
      let h = subst (λ b. (if b then some e.1 else HashMap.get_val k es) ≡ none) y g in
      rw (HashMap.delete_node, y) (ap (λ l. e ∷ l) (delete_node-missing k es h))
]

module _ {κ} (P : ℕ × ℕ → Type κ) where
  pub All-snoc : (e : ℕ × ℕ) (es : List (ℕ × ℕ)) → All P es → P e → All P (es ++ (e ∷ []))
  All-snoc e [] a p = (p, tt)
  All-snoc e (x ∷ es) (q, a) p = (q, All-snoc e es a p)

  pub All-delete_node : (k : ℕ) (es : List (ℕ × ℕ)) → All P es → All P (HashMap.delete_node k es)
  unfolding HashMap.delete_node
  All-delete_node k [] a = a
  All-delete_node k (e ∷ es) (p, a) = elim (Bool-cases (k == e.0)) [
    | inl y ↦ rw (HashMap.delete_node, y) a
    | inr y ↦ rw (HashMap.delete_node, y) (p, All-delete_node k es a)
  ]

  pub All-put_entry : (k v : ℕ) (es : List (ℕ × ℕ)) → All P es → P (k, v) → All P (put_entry k v es)
  All-put_entry k v es a p = elim (Option-cases (HashMap.get_val k es)) [
    | inl e ↦ rw (put_entry_absent k v es e) (All-snoc (k, v) es a p)
    | inr (w, e) ↦ rw (put_entry_present k v w es e) a
  ]

other_key :
    (k j v : ℕ) (o : Option ℕ)
    → (if k == j then some v else o) ≡ none
    → ((j == k) ≡ false) × (o ≡ none)
other_key k j v o e = (ground (arith, e), ground (arith, e))

Distinct-snoc :
    (k v : ℕ) (es : List (ℕ × ℕ))
    → HashMap.get_val k es ≡ none
    → Distinct es
    → Distinct (es ++ ((k, v) ∷ []))
unfolding HashMap.get_val
Distinct-snoc k v [] e d = (refl, tt)
Distinct-snoc k v (x ∷ es) e (p, d) =
    let (other, rest) = other_key k x.0 x.1 (HashMap.get_val k es) e in
    (get_val-snoc x.0 k v es ∙ rw (p, other) refl, Distinct-snoc k v es rest d)

pub Distinct-put_entry : (k v : ℕ) (es : List (ℕ × ℕ)) → Distinct es → Distinct (put_entry k v es)
Distinct-put_entry k v es d = elim (Option-cases (HashMap.get_val k es)) [
  | inl e ↦ rw (put_entry_absent k v es e) (Distinct-snoc k v es e d)
  | inr (w, e) ↦ rw (put_entry_present k v w es e) d
]

pub Distinct-delete_node :
    (k : ℕ) (es : List (ℕ × ℕ)) → Distinct es → Distinct (HashMap.delete_node k es)
unfolding HashMap.delete_node
Distinct-delete_node k [] d = d
Distinct-delete_node k (e ∷ es) (p, d) = elim (Bool-cases (k == e.0)) [
  | inl y ↦ rw (HashMap.delete_node, y) d
  | inr y ↦
      rw (HashMap.delete_node, y)
        (delete_node_lem e.0 k es d ∙ ground (arith, p), Distinct-delete_node k es d)
]
