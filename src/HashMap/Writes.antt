-- ===== src/HashMap/Writes.antt =====
-- Writes in the slots of market_server/common/include/flat_hash_map.hpp, and the rows they leave alone.
use naoto_exchange.Common.{
  ℕ, zero, suc, ◌+◌, ◌*◌, ◌≤◌, ◌<◌, List, [], ◌∷◌, ◌++◌, ◌≡◌, ◌≢◌, subst, ◌∙◌, arith, length, ◌==◌,
  if◌then◌else◌, update,
}
use naoto_exchange.HashMap.Table.{Slot, Slots, entry, write_slot}
use naoto_exchange.HashMap.Rows.{Row}

-- A write below the padding is a write at one index there.
pub write_slot_below :
    (size i j : ℕ) (s : Slot) (t : Slots)
    → j < size * 16
    → write_slot size i s t j ≡ (if j == i then s else t j)
unfolding write_slot update
write_slot_below size i j s t h = ground arith

pub write_slot_at :
    (size i : ℕ) (s : Slot) (t : Slots) → i < size * 16 → write_slot size i s t i ≡ s
unfolding write_slot update
write_slot_at size i s t h = ground arith

pub write_slot_elsewhere :
    (size i j : ℕ) (s : Slot) (t : Slots) → j < size * 16 → j ≢ i → write_slot size i s t j ≡ t j
unfolding write_slot update
write_slot_elsewhere size i j s t h n = ground arith

-- A row is read in its own slots only.
pub Row-frame :
    (t u : Slots) (base c i : ℕ) (es : List (ℕ × ℕ))
    → ((lane : ℕ) → i ≤ lane → lane < i + c → u (base + lane) ≡ t (base + lane))
    → Row t base c i es
    → Row u base c i es
Row-frame t u base zero i [] f r = r
Row-frame t u base zero i (e ∷ es) f r = r
Row-frame t u base (suc c) i [] f (p, r) = (
  f i (omega arith) (omega arith) ∙ p,
  Row-frame t u base c (suc i) [] (λ lane l h. f lane (omega arith) (omega arith)) r,
)
Row-frame t u base (suc c) i (e ∷ es) f (p, r) = (
  f i (omega arith) (omega arith) ∙ p,
  Row-frame t u base c (suc i) es (λ lane l h. f lane (omega arith) (omega arith)) r,
)

pub Row-snoc :
    (size : ℕ) (t : Slots) (base c i k v n : ℕ) (es : List (ℕ × ℕ))
    → base + 16 ≤ size * 16
    → i + c ≡ 16
    → i + length es ≡ n
    → n < 16
    → Row t base c i es
    → Row (write_slot size (base + n) (entry n k v) t) base c i (es ++ ((k, v) ∷ []))
Row-snoc size t base zero i k v n es room h l f r = absurd (omega arith)
Row-snoc size t base (suc c) i k v n [] room h l f (p, r) =
    let e : i ≡ n = omega arith in
    subst (λ m. Row (write_slot size (base + m) (entry m k v) t) base (suc c) i ((k, v) ∷ [])) e
      (
        write_slot_at size (base + i) (entry i k v) t (omega arith),
        Row-frame t (write_slot size (base + i) (entry i k v) t) base c (suc i) []
            (λ lane a b.
              write_slot_elsewhere size (base + i) (base + lane) (entry i k v) t (omega arith)
                (omega arith))
            r,
      )
Row-snoc size t base (suc c) i k v n (e ∷ es) room h l f (p, r) = (
  write_slot_elsewhere size (base + n) (base + i) (entry n k v) t (omega arith) (omega arith) ∙ p,
  Row-snoc size t base c (suc i) k v n es room (omega arith) (omega arith) f r,
)
