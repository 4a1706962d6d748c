-- ===== src/HashMap/Insert.antt =====
-- `AddNode` of market_server/common/include/flat_hash_map.hpp, where the sixteen slots of the key's hash
-- have room.
use naoto_exchange.Common.{
  ℕ, suc, ◌+◌, ◌*◌, ◌≤◌, ◌<◌, List, [], ◌∷◌, none, some, ◌≡◌, ◌≢◌, ◌⊎◌, inl, inr, refl, sym, subst,
  ap, ◌∙◌, arith, All, length, length-append, ltb, Bool-cases, Option-cases, update,
}
use native.Mathlib.Decide.{ℕ_discrete}
use naoto_exchange.HashMap
use naoto_exchange.HashMap.Table.{Slots, bucket_of, entry, write_slot, get_val}
use naoto_exchange.HashMap.Update.{placed, home_loop, carry, add_node}
use naoto_exchange.HashMap.Rows.{Row}
use naoto_exchange.HashMap.Buckets.{
  Buckets, Distinct, put_entry, put_entry_absent, put_entry_present, change_bucket,
  Distinct-put_entry, All-put_entry,
}
use naoto_exchange.HashMap.Lookup.{Represents, bucket_within, get_val-Represents}
use naoto_exchange.HashMap.Writes.{write_slot_elsewhere, Row-frame, Row-snoc}
use naoto_exchange.HashMap.HomeLoop.{home_loop-Row}

pub change_bucket_at :
    (size k b : ℕ) (es : List (ℕ × ℕ)) (B : Buckets)
    → b ≡ bucket_of size k
    → change_bucket size k es B b ≡ es
unfolding change_bucket update
change_bucket_at size k b es B e = ground (arith, e)

pub change_bucket_elsewhere :
    (size k b : ℕ) (es : List (ℕ × ℕ)) (B : Buckets)
    → b ≢ bucket_of size k
    → change_bucket size k es B b ≡ B b
unfolding change_bucket update
change_bucket_elsewhere size k b es B e = ground (arith, e)

apart :
    (b home lane : ℕ)
    → b ≢ home
    → lane < 16
    → (b * 16 + lane < home * 16) ⊎ (home * 16 + 16 ≤ b * 16 + lane)
apart b home lane n l = elim (Bool-cases (ltb b home)) [
  | inl y ↦ inl (ground (arith, y))
  | inr y ↦ inr (ground (arith, y, n))
]

outside : (j base n : ℕ) → n < 16 → (j < base) ⊎ (base + 16 ≤ j) → j ≢ base + n
outside j base n l h = ground (arith, h)

-- A table that differs from another in the slots of one hash only.
pub Represents-change :
    (size k : ℕ) (es : List (ℕ × ℕ)) (B : Buckets) (t u : Slots)
    → Represents size B t
    → Row u (bucket_of size k * 16) 16 0 es
    → ((j : ℕ)
        → j < size * 16
        → (j < bucket_of size k * 16) ⊎ (bucket_of size k * 16 + 16 ≤ j)
        → u j ≡ t j)
    → All (λ e. bucket_of size e.0 ≡ bucket_of size k) es
    → Distinct es
    → Represents size (change_bucket size k es B) u
Represents-change size k es B t u w r f h d =
    let home = bucket_of size k in
    let split = λ (b : ℕ). ℕ_discrete b home in
    record {
      positive = w.positive;
      row = λ b l. elim (split b) [
        | yes e ↦ rw (change_bucket_at size k b es B e, e) r
        | no n ↦ rw (change_bucket_elsewhere size k b es B n) (
            Row-frame t u (b * 16) 16 0 (B b)
              (λ lane x y. f (b * 16 + lane) (omega arith) (apart b home lane n y)) (w.row b l))
      ];
      homed = λ b l. elim (split b) [
        | yes e ↦ rw (change_bucket_at size k b es B e, e) h
        | no n ↦ rw (change_bucket_elsewhere size k b es B n) (w.homed b l)
      ];
      distinct = λ b l. elim (split b) [
        | yes e ↦ rw (change_bucket_at size k b es B e) d
        | no n ↦ rw (change_bucket_elsewhere size k b es B n) (w.distinct b l)
      ];
    }

home_loop-carry :
    (size fuel base k v : ℕ) (t : Slots) (es : List (ℕ × ℕ))
    → length es < 16
    → 16 ≤ fuel
    → Row t base 16 0 es
    → home_loop size fuel (carry base k v t)
      ≡ some (placed (write_slot size (base + length es) (entry (length es) k v) t))
home_loop-carry size fuel base k v t es l g r =
    let start : base + 0 ≡ base = omega arith in
    subst
      (λ i.
        home_loop size fuel
          record { cur_idx = i; cur_dib = 0; held_key = k; held_value = v; slots = t }
        ≡ some (placed (write_slot size (base + length es) (entry (length es) k v) t)))
      start (home_loop-Row size fuel t base 16 0 k v (length es) es refl (omega arith) l g r)

-- A key that is not there is put behind the entries of its hash, where these are fewer than sixteen.
add_node_absent :
    (size fuel k v b : ℕ) (B : Buckets) (t : Slots)
    → Represents size B t
    → b ≡ bucket_of size k
    → b < size
    → HashMap.get_val k (B b) ≡ none
    → length (B b) < 16
    → 16 ≤ fuel
    → add_node size fuel k v t
      ≡ some (write_slot size (b * 16 + length (B b)) (entry (length (B b)) k v) t)
unfolding add_node
add_node_absent size fuel k v b B t w e in_range h l g =
    let absent : get_val size k t ≡ none =
      get_val-Represents size B t k w ∙ ap (λ x. HashMap.get_val k (B x)) (sym e) ∙ h in
    rw
      (
        add_node,
        absent,
        sym e,
        home_loop-carry size fuel (b * 16) k v t (B b) l g (w.row b in_range),
      )
      refl

add_node_present :
    (size fuel k v x : ℕ) (B : Buckets) (t : Slots)
    → Represents size B t
    → HashMap.get_val k (B (bucket_of size k)) ≡ some x
    → add_node size fuel k v t ≡ some t
unfolding add_node
add_node_present size fuel k v x B t w h = rw (add_node, get_val-Represents size B t k w, h) refl

-- `AddNode` in a table none of whose hashes comes to more than sixteen keys.
pub add_node-Represents :
    (size fuel k v : ℕ) (B : Buckets) (t : Slots)
    → Represents size B t
    → length (put_entry k v (B (bucket_of size k))) ≤ 16
    → 16 ≤ fuel
    → (u : Slots) × (add_node size fuel k v t ≡ some u)
      × Represents size (change_bucket size k (put_entry k v (B (bucket_of size k))) B) u
add_node-Represents size fuel k v B t w l g =
    let b = bucket_of size k in
    let es = B b in
    let within = bucket_within size k w.positive in
    let homed = All-put_entry (λ e. bucket_of size e.0 ≡ b) k v es (w.homed b within) refl in
    let distinct = Distinct-put_entry k v es (w.distinct b within) in
    elim (Option-cases (HashMap.get_val k es)) [
      | inl e ↦
          let longer : length (put_entry k v es) ≡ suc (length es) =
            ap length (put_entry_absent k v es e) ∙ length-append es ((k, v) ∷ []) ∙ omega arith in
          let room : length es < 16 = omega arith in
          let u = write_slot size (b * 16 + length es) (entry (length es) k v) t in
          let row =
            Row-snoc size t (b * 16) 16 0 k v (length es) es (omega arith) refl (omega arith) room
              (w.row b within) in
          (
            u,
            add_node_absent size fuel k v b B t w refl within e room g,
            Represents-change size k (put_entry k v es) B t u w
                (subst (λ l. Row u (b * 16) 16 0 l) (sym (put_entry_absent k v es e)) row)
                (λ j x y.
                  write_slot_elsewhere size (b * 16 + length es) j (entry (length es) k v) t x
                    (outside j (b * 16) (length es) room y))
                homed distinct,
          )
      | inr (x, e) ↦ (
        t,
        add_node_present size fuel k v x B t w e,
        Represents-change size k (put_entry k v es) B t t w
            (subst (λ l. Row t (b * 16) 16 0 l) (sym (put_entry_present k v x es e))
              (w.row b within))
            (λ j x y. refl) homed distinct,
      )
    ]
