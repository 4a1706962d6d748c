-- ===== src/HashMap/HomeLoop.antt =====
-- The first loop of `AddNode` of market_server/common/include/flat_hash_map.hpp, where the sixteen slots
-- of the key's hash have room.
use naoto_exchange.Common.{
  ℕ, zero, suc, ◌+◌, ◌≤◌, ◌<◌, List, [], ◌∷◌, true, some, ◌≡◌, refl, ◌∙◌, arith, length, ltb,
}
use naoto_exchange.HashMap.Table.{Slots, entry, empty_slot, write_slot, padding_safe_write}
use naoto_exchange.HashMap.Update.{Carried, placed, carried, try_slot, place, home_loop}
use naoto_exchange.HashMap.Rows.{Row}

abbrev pub walk : ℕ → ℕ → ℕ → ℕ → Slots → Carried
walk base i k v t = record {
  cur_idx = base + i;
  cur_dib = i;
  held_key = k;
  held_value = v;
  slots = t;
}

pub try_slot-empty :
    (size : ℕ) (t : Slots) (base i k v : ℕ)
    → t (base + i) ≡ empty_slot
    → try_slot size (walk base i k v t) ≡ placed (write_slot size (base + i) (entry i k v) t)
unfolding try_slot place padding_safe_write
try_slot-empty size t base i k v e = rw e refl

pub try_slot-entry :
    (size : ℕ) (t : Slots) (base i k v : ℕ) (e : ℕ × ℕ)
    → i < 16
    → t (base + i) ≡ entry i e.0 e.1
    → try_slot size (walk base i k v t) ≡ carried (walk base i k v t)
unfolding try_slot
try_slot-entry size t base i k v e h p = rw p (ground arith)

-- One round of the first loop.
pub home_loop-placed :
    (size fuel : ℕ) (c : Carried) (t : Slots)
    → c.cur_dib < 16
    → try_slot size c ≡ placed t
    → home_loop size (suc fuel) c ≡ some (placed t)
unfolding home_loop
home_loop-placed size fuel c t h e =
    let below : ltb c.cur_dib 16 ≡ true = ground arith in rw (home_loop, below, e) refl

pub home_loop-carried :
    (size fuel base i k v : ℕ) (t : Slots)
    → i < 16
    → try_slot size (walk base i k v t) ≡ carried (walk base i k v t)
    → home_loop size (suc fuel) (walk base i k v t) ≡ home_loop size fuel (walk base (suc i) k v t)
unfolding home_loop
home_loop-carried size fuel base i k v t h e =
    let below : ltb i 16 ≡ true = ground arith in
    let at : (base + i) + 1 ≡ base + suc i = omega arith in
    let far : i + 1 ≡ suc i = omega arith in rw (home_loop, below, e, at, far) refl

pub home_loop-Row :
    (size fuel : ℕ) (t : Slots) (base c i k v n : ℕ) (es : List (ℕ × ℕ))
    → i + c ≡ 16
    → i + length es ≡ n
    → n < 16
    → c ≤ fuel
    → Row t base c i es
    → home_loop size fuel (walk base i k v t)
      ≡ some (placed (write_slot size (base + n) (entry n k v) t))
home_loop-Row size fuel t base zero i k v n es h l f g r = absurd (omega arith)
home_loop-Row size zero t base (suc c) i k v n es h l f g r = absurd (omega arith)
home_loop-Row size (suc fuel) t base (suc c) i k v n [] h l f g (p, r) =
    let e : n ≡ i = omega arith in
    rw e (home_loop-placed size fuel _ _ (omega arith) (try_slot-empty size t base i k v p))
home_loop-Row size (suc fuel) t base (suc c) i k v n (e ∷ es) h l f g (p, r) =
    home_loop-carried size fuel base i k v t (omega arith)
      (try_slot-entry size t base i k v e (omega arith) p)
    ∙ home_loop-Row size fuel t base c (suc i) k v n es (omega arith) (omega arith) f (omega arith)
        r
