-- ===== src/HashMap/Shift.antt =====
-- The second loop of `DeleteNode` of market_server/common/include/flat_hash_map.hpp, in a table none of
-- whose hashes has more than sixteen keys.
use naoto_exchange.Common.{
  ℕ, zero, suc, ◌+◌, ◌-◌, ◌*◌, ◌%◌, ◌≤◌, ◌<◌, List, [], ◌∷◌, false, some, ◌≡◌, ◌≢◌, ◌⊎◌, inl, inr,
  refl, sym, subst, ◌∙◌, arith, ◌==◌, ◌||◌, Bool-cases,
}
use naoto_exchange.HashMap.Table.{
  Slot, Slots, entry, empty_slot, empty_marker, foot_of, hash_64, write_slot, padding_safe_write,
}
use naoto_exchange.HashMap.Update.{shift_from}
use naoto_exchange.HashMap.Rows.{Row}
use naoto_exchange.HashMap.Writes.{write_slot_at, write_slot_elsewhere, Row-frame}
use naoto_exchange.HashMap.Find.{IsHead, behind}

-- What an operation on the slots of a hash leaves alone.
abbrev pub Frame : ℕ → ℕ → ℕ → Slots → Slots → Type 0
Frame size from to t u = (j : ℕ) → j < size * 16 → (j < from) ⊎ (to ≤ j) → u j ≡ t j

pub beside : (j base m : ℕ) → m < 16 → (j < base + m) ⊎ (base + 16 ≤ j) → j ≢ base + m
beside j base m l h = ground (arith, h)

-- The first slot behind a hash still ends the loops after a write in the hash: where it is that slot
-- itself, the entry is at its home.
pub write_slot-IsHead :
    (size b n m k v : ℕ) (t : Slots)
    → m < 16
    → n < size
    → IsHead (t (n * 16))
    → IsHead (write_slot size (b * 16 + m) (entry m k v) t (n * 16))
write_slot-IsHead size b n m k v t l h p = elim (Bool-cases (n * 16 == b * 16 + m)) [
  | inl y ↦
      let at : b * 16 + m ≡ n * 16 = ground (arith, y) in
      let home : m ≡ 0 = omega arith in
      rw (at, home, write_slot_at size (n * 16) (entry 0 k v) t (omega arith)) refl
  | inr y ↦
      let away : n * 16 ≢ b * 16 + m = ground (arith, y) in
      subst IsHead
        (sym (write_slot_elsewhere size (b * 16 + m) (n * 16) (entry m k v) t (omega arith) away)) p
]

pub shift_from-ends :
    (size fuel i : ℕ) (t : Slots)
    → IsHead (t ((i + 1) % (size * 16)))
    → shift_from size (suc fuel) i t ≡ some (write_slot size i empty_slot t)
unfolding shift_from padding_safe_write foot_of hash_64
shift_from-ends size fuel i t h = rw (shift_from, h) refl

pub shift_from-moves :
    (size fuel i j m k v : ℕ) (t : Slots)
    → (i + 1) % (size * 16) ≡ j
    → suc m < 16
    → t j ≡ entry (suc m) k v
    → shift_from size (suc fuel) i t ≡ shift_from size fuel j (write_slot size i (entry m k v) t)
unfolding shift_from padding_safe_write
shift_from-moves size fuel i j m k v t at l e =
    let low : suc m % 256 ≡ suc m = omega arith in
    let less : suc m - 1 ≡ m = omega arith in
    let busy : ((suc m == empty_marker) || (suc m == 0)) ≡ false = ground arith in
    rw (shift_from, at, e, low, busy) (rw (at, e, low, less) refl)

pub write_slot-rest :
    (size b c m : ℕ) (s : Slot) (t : Slots) (es : List (ℕ × ℕ))
    → b < size
    → suc m + c ≡ 16
    → Row t (b * 16) c (suc m) es
    → Row (write_slot size (b * 16 + m) s t) (b * 16) c (suc m) es
write_slot-rest size b c m s t es h l r =
    Row-frame t (write_slot size (b * 16 + m) s t) (b * 16) c (suc m) es
      (λ lane x y.
        write_slot_elsewhere size (b * 16 + m) (b * 16 + lane) s t (omega arith) (omega arith))
      r

pub write_slot-Frame :
    (size b m : ℕ) (s : Slot) (t : Slots)
    → m < 16
    → Frame size (b * 16 + m) (b * 16 + 16) t (write_slot size (b * 16 + m) s t)
write_slot-Frame size b m s t l j x y =
    write_slot_elsewhere size (b * 16 + m) j s t x (beside j (b * 16) m l y)

-- From a hole in a hash, the entries behind it move up.
pub shift_from-Row :
    (size fuel : ℕ) (t : Slots) (b n c m : ℕ) (es : List (ℕ × ℕ))
    → b < size
    → n < size
    → (b * 16 + 16) % (size * 16) ≡ n * 16
    → m + suc c ≡ 16
    → c < fuel
    → IsHead (t (n * 16))
    → Row t (b * 16) c (suc m) es
    → (u : Slots) × (shift_from size fuel (b * 16 + m) t ≡ some u)
      × Row u (b * 16) (suc c) m es
      × Frame size (b * 16 + m) (b * 16 + 16) t u
shift_from-Row size zero t b n c m es h nh e l f head r = absurd (omega arith)
shift_from-Row size (suc fuel) t b n zero m [] h nh e l f head r =
    let last : (b * 16 + m) + 1 ≡ b * 16 + 16 = omega arith in
    (
      write_slot size (b * 16 + m) empty_slot t,
      shift_from-ends size fuel (b * 16 + m) t (rw (last, e) head),
      (write_slot_at size (b * 16 + m) empty_slot t (omega arith), tt),
      write_slot-Frame size b m empty_slot t (omega arith),
    )
shift_from-Row size (suc fuel) t b n zero m (x ∷ es) h nh e l f head r = absurd r
shift_from-Row size (suc fuel) t b n (suc c) m [] h nh e l f head (p, r) = (
  write_slot size (b * 16 + m) empty_slot t,
  shift_from-ends size fuel (b * 16 + m) t
      (rw (behind size (b * 16) m (omega arith) (omega arith), p) refl),
  (
    write_slot_at size (b * 16 + m) empty_slot t (omega arith),
    write_slot-rest size b (suc c) m empty_slot t [] h (omega arith) (p, r),
  ),
  write_slot-Frame size b m empty_slot t (omega arith),
)
shift_from-Row size (suc fuel) t b n (suc c) m (x ∷ es) h nh e l f head (p, r) =
    let v = write_slot size (b * 16 + m) (entry m x.0 x.1) t in
    let at = write_slot_at size (b * 16 + m) (entry m x.0 x.1) t (omega arith) in
    let frame = write_slot-Frame size b m (entry m x.0 x.1) t (omega arith) in
    let kept =
      (write_slot-rest size b (suc c) m (entry m x.0 x.1) t (x ∷ es) h (omega arith) (p, r)).1 in
    let (u, done, row, beyond) =
      shift_from-Row size fuel v b n c (suc m) es h nh e (omega arith) (omega arith)
        (write_slot-IsHead size b n m x.0 x.1 t (omega arith) nh head) kept in
    (
      u,
      shift_from-moves size fuel (b * 16 + m) (b * 16 + suc m) m x.0 x.1 t
            (behind size (b * 16) m (omega arith) (omega arith)) (omega arith) p
          ∙ done,
      (beyond (b * 16 + m) (omega arith) (inl (omega arith)) ∙ at, row),
      λ j y z. beyond j y (ground (arith, z)) ∙ frame j y z,
    )

-- The entry of a key leaves the hole that is filled.
