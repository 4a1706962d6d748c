-- ===== src/HashMap/Refines.antt =====
-- The table of market_server/common/include/flat_hash_map.hpp as a function from keys to values, one
-- operation at a time and over a run.
use naoto_exchange.Common.{
  ℕ, zero, suc, ◌*◌, ◌≤◌, ◌<◌, List, [], ◌∷◌, true, false, Option, none, some, ◌≡◌, inl, inr, refl,
  ap, ◌∙◌, arith, length, ◌==◌, if◌then◌else◌, Bool-cases,
}
use native.Mathlib.Decide.{ℕ_discrete}
use naoto_exchange.HashMap
use naoto_exchange.HashMap.Table.{Slots, new_table, bucket_of, get_val}
use naoto_exchange.HashMap.Update.{add_node, delete_node}
use naoto_exchange.HashMap.Buckets.{
  Buckets, put_entry, change_bucket, or_else, get_val-put_entry, delete_node_lem,
}
use naoto_exchange.HashMap.Rows.{Row}
use naoto_exchange.HashMap.Lookup.{Represents, bucket_within, get_val-Represents}
use naoto_exchange.HashMap.Insert.{change_bucket_at, change_bucket_elsewhere, add_node-Represents}
use naoto_exchange.HashMap.Delete.{delete_node-Represents}

-- The hash of a key has at most sixteen keys with it.
abbrev pub Fits : ℕ → ℕ → ℕ → Buckets → Type 0
Fits size k v B = length (put_entry k v (B (bucket_of size k))) ≤ 16

same : (j k : ℕ) → (j == k) ≡ true → j ≡ k
same j k y = ground (arith, y)

-- A change of the list of one key's hash, as every key sees it.
change_bucket-get_val :
    (size j k : ℕ) (es : List (ℕ × ℕ)) (B : Buckets) (o : Option ℕ)
    → ((i : ℕ)
        → HashMap.get_val i es ≡ (if i == k then o else HashMap.get_val i (B (bucket_of size k))))
    → HashMap.get_val j (change_bucket size k es B (bucket_of size j))
      ≡ (if j == k then o else HashMap.get_val j (B (bucket_of size j)))
change_bucket-get_val size j k es B o f = elim (ℕ_discrete (bucket_of size j) (bucket_of size k)) [
  | yes e ↦ rw (change_bucket_at size k (bucket_of size j) es B e, e) (f j)
  | no n ↦
      let other : (j == k) ≡ false = elim (Bool-cases (j == k)) [
        | inl y ↦ absurd (n (ap (λ x. bucket_of size x) (same j k y)))
        | inr y ↦ y
      ] in
      rw (change_bucket_elsewhere size k (bucket_of size j) es B n, other) refl
]

module _ (size j k : ℕ) (B : Buckets) (t u : Slots) (w : Represents size B t) where
  get_val_put :
      (v : ℕ)
      → Represents size (change_bucket size k (put_entry k v (B (bucket_of size k))) B) u
      → get_val size j u
        ≡ (if j == k then or_else (get_val size k t) (some v) else get_val size j t)
  get_val_put v after =
      rw
        (
          get_val-Represents size _ u j after,
          get_val-Represents size B t k w,
          get_val-Represents size B t j w,
        )
        (change_bucket-get_val size j k _ B _ (λ i. get_val-put_entry i k v _))

  get_val_removed :
      Represents size (change_bucket size k (HashMap.delete_node k (B (bucket_of size k))) B) u
      → get_val size j u ≡ (if j == k then none else get_val size j t)
  get_val_removed after =
      rw (get_val-Represents size _ u j after, get_val-Represents size B t j w)
        (change_bucket-get_val size j k _ B none
          (λ i. delete_node_lem i k _ (w.distinct _ (bucket_within size k w.positive))))

-- In a table none of whose hashes comes to more than sixteen keys, `AddNode` gives the key its value,
-- unless it has one already, and every other key keeps what it had.
pub get_val-add_node :
    (size fuel j k v : ℕ) (B : Buckets) (t : Slots)
    → Represents size B t
    → Fits size k v B
    → 16 ≤ fuel
    → (u : Slots) × (add_node size fuel k v t ≡ some u)
      × (get_val size j u
          ≡ (if j == k then or_else (get_val size k t) (some v) else get_val size j t))
get_val-add_node size fuel j k v B t w l f =
    let (u, done, after) = add_node-Represents size fuel k v B t w l f in
    (u, done, get_val_put size j k B t u w v after)

-- In a table none of whose hashes has more than sixteen keys, `DeleteNode` takes the key away, and
-- every other key keeps what it had.
pub get_val-delete_node :
    (size fuel j k : ℕ) (B : Buckets) (t : Slots)
    → Represents size B t
    → 16 ≤ fuel
    → (u : Slots) × (delete_node size fuel k t ≡ some u)
      × (get_val size j u ≡ (if j == k then none else get_val size j t))
get_val-delete_node size fuel j k B t w f =
    let (u, done, after) = delete_node-Represents size fuel k B t w f in
    (u, done, get_val_removed size j k B t u w after)

pub data Change : Type 0 where
  put : ℕ → ℕ → Change
  remove : ℕ → Change

-- A run of calls on the table.
unfoldable pub run : ℕ → ℕ → List Change → Slots → Option Slots
unfolding add_node delete_node
run size fuel [] t = some t
run size fuel (put k v ∷ cs) t = elim (add_node size fuel k v t) [
  | none ↦ none
  | some u ↦ run size fuel cs u
]
run size fuel (remove k ∷ cs) t = elim (delete_node size fuel k t) [
  | none ↦ none
  | some u ↦ run size fuel cs u
]

-- What the calls mean for a function from keys to values.
abbrev pub meaning : List Change → (ℕ → Option ℕ) → ℕ → Option ℕ
meaning [] f = f
meaning (put k v ∷ cs) f = meaning cs (λ j. if j == k then or_else (f k) (some v) else f j)
meaning (remove k ∷ cs) f = meaning cs (λ j. if j == k then none else f j)

-- No call brings a hash to more than sixteen keys.
abbrev pub AllFit : ℕ → List Change → Buckets → Type 0
AllFit size [] B = Unit
AllFit size (put k v ∷ cs) B =
    Fits size k v B × AllFit size cs (change_bucket size k (put_entry k v (B (bucket_of size k))) B)
AllFit size (remove k ∷ cs) B =
    AllFit size cs (change_bucket size k (HashMap.delete_node k (B (bucket_of size k))) B)

Row-new : (base c i : ℕ) → Row new_table base c i []
Row-new base zero i = tt
Row-new base (suc c) i = (refl, Row-new base c (suc i))

pub new_table-Represents : (size : ℕ) → 0 < size → Represents size (λ b. []) new_table
new_table-Represents size h = record {
  positive = h;
  row = λ b l. Row-new (b * 16) 16 0;
  homed = λ b l. tt;
  distinct = λ b l. tt;
}

run-Represents :
    (size fuel : ℕ) (cs : List Change) (B : Buckets) (t : Slots) (f : ℕ → Option ℕ)
    → Represents size B t
    → AllFit size cs B
    → 16 ≤ fuel
    → ((j : ℕ) → get_val size j t ≡ f j)
    → (u : Slots) × (run size fuel cs t ≡ some u) × ((j : ℕ) → get_val size j u ≡ meaning cs f j)
unfolding run
run-Represents size fuel [] B t f w a g e = (t, refl, e)
run-Represents size fuel (put k v ∷ cs) B t f w (a, rest) g e =
    let (u, done, after) = add_node-Represents size fuel k v B t w a g in
    rw (run, done)
      (run-Represents size fuel cs _ u _ after rest g
        (λ j. get_val_put size j k B t u w v after ∙ rw (e k, e j) refl))
run-Represents size fuel (remove k ∷ cs) B t f w a g e =
    let (u, done, after) = delete_node-Represents size fuel k B t w g in
    rw (run, done)
      (run-Represents size fuel cs _ u _ after a g
        (λ j. get_val_removed size j k B t u w after ∙ rw (e j) refl))

-- From the empty table, a run of `AddNode` and `DeleteNode` that never brings a hash to more than sixteen
-- keys ends, and `GetVal` then answers for every key what the same changes make of an empty function.
pub get_val-run :
    (size fuel : ℕ) (cs : List Change)
    → 0 < size
    → AllFit size cs (λ b. [])
    → 16 ≤ fuel
    → (u : Slots) × (run size fuel cs new_table ≡ some u)
      × ((j : ℕ) → get_val size j u ≡ meaning cs (λ k. none) j)
unfolding HashMap.get_val
get_val-run size fuel cs h a g =
    let w = new_table-Represents size h in
    run-Represents size fuel cs _ new_table (λ k. none) w a g
      (λ j. get_val-Represents size _ new_table j w)
