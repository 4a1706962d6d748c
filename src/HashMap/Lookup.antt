-- ===== src/HashMap/Lookup.antt =====
-- `GetVal` of market_server/common/include/flat_hash_map.hpp, in a table none of whose hashes has more
-- than sixteen keys.
use naoto_exchange.Common.{
  ℕ, zero, suc, ◌+◌, ◌*◌, ◌%◌, ◌<◌, List, [], ◌∷◌, Option, none, some, ◌≡◌, inl, inr, refl, ◌∙◌,
  arith, All, length, ◌==◌, if◌then◌else◌, Bool-cases,
}
use native.Mathlib.Nat.{mod-eq_of_lt, mod_self, mod-lt}
use naoto_exchange.HashMap
use naoto_exchange.HashMap.Table.{
  Slots, bucket_of, foot_of, is_stop, is_match, first_lane, lanes_of, check_matches, probe,
  get_from, get_val, absent,
}
use naoto_exchange.HashMap.Buckets.{Buckets, Distinct}
use naoto_exchange.HashMap.Rows.{Row, first_lane-Row, check_matches-Row, answer}

-- The entries of each hash, all of them in its own sixteen slots.
pub record Represents (size : ℕ) (buckets : Buckets) (t : Slots) : Type 0 where
  pub positive : 0 < size
  pub row : (b : ℕ) → b < size → Row t (b * 16) 16 0 (buckets b)
  pub homed : (b : ℕ) → b < size → All (λ e. bucket_of size e.0 ≡ b) (buckets b)
  pub distinct : (b : ℕ) → b < size → Distinct (buckets b)

pub bucket_within : (size k : ℕ) → 0 < size → bucket_of size k < size
unfolding bucket_of
bucket_within size k h = mod-lt _ h

first_lane_home :
    (t : Slots) (base : ℕ) (es : List (ℕ × ℕ))
    → Row t base 16 0 es
    → first_lane (is_stop t base 0) 16 0 ≡ length es
first_lane_home t base es r = omega (arith, first_lane-Row t base 16 0 es refl r)

probe-Row :
    (size : ℕ) (t : Slots) (b k : ℕ) (es : List (ℕ × ℕ))
    → b < size
    → Row t (b * 16) 16 0 es
    → probe size t (b * 16) 0 k ≡ answer (length es) (HashMap.get_val k es)
unfolding probe
probe-Row size t b k es h r =
    rw (first_lane_home t (b * 16) es r)
      (check_matches-Row size t (b * 16) 16 0 k (length es) es (omega arith) refl (omega arith) r)

-- The sixteen slots of the next hash have none of this one's keys, and their first lane says so.
stops_first :
    (t : Slots) (base : ℕ) (es : List (ℕ × ℕ))
    → Row t base 16 0 es
    → first_lane (is_stop t base 16) 16 0 ≡ 0
unfolding first_lane is_stop
stops_first t base [] (p, r) = rw p refl
stops_first t base (e ∷ es) (p, r) = rw p refl

check_stopped :
    (size : ℕ) (t : Slots) (i k : ℕ) (lanes : List ℕ) → check_matches size t i 0 k lanes ≡ absent
unfolding check_matches
check_stopped size t i k [] = refl
check_stopped size t i k (lane ∷ lanes) = ground arith

probe-next :
    (size : ℕ) (t : Slots) (base k : ℕ) (es : List (ℕ × ℕ))
    → Row t base 16 0 es
    → probe size t base 16 k ≡ absent
unfolding probe
probe-next size t base k es r =
    rw (stops_first t base es r)
      (check_stopped size t base k (lanes_of (is_match t base 16 (foot_of k)) 16 0))

-- The index of the hash behind, round the end of the table.
pub next_bucket : ℕ → ℕ → ℕ
next_bucket size b = if b + 1 == size then 0 else b + 1

the_last : (size b : ℕ) → b + 1 ≡ size → b * 16 + 16 ≡ size * 16
the_last size b e = omega arith

pub next_bucket_lem :
    (size b : ℕ)
    → b < size
    → ((b * 16 + 16) % (size * 16) ≡ next_bucket size b * 16) × (next_bucket size b < size)
unfolding next_bucket
next_bucket_lem size b h = elim (Bool-cases (b + 1 == size)) [
  | inl e ↦ rw e (rw (the_last size b (ground (arith, e))) (mod_self (size * 16)), omega arith)
  | inr e ↦ rw e (
    mod-eq_of_lt {n = b * 16 + 16} {m = size * 16} (ground (arith, e)) ∙ omega arith,
    ground (arith, e),
  )
]

get_from-absent :
    (size : ℕ) (t : Slots) (k rounds i dib : ℕ)
    → probe size t i dib k ≡ absent
    → get_from size t k (suc rounds) i dib ≡ none
unfolding get_from
get_from-absent size t k rounds i dib e = rw (get_from, e) refl

get_from-next :
    (size : ℕ) (buckets : Buckets) (t : Slots) (k rounds b : ℕ)
    → Represents size buckets t
    → b < size
    → get_from size t k rounds ((b * 16 + 16) % (size * 16)) 16 ≡ none
unfolding get_from
get_from-next size buckets t k zero b w h = refl
get_from-next size buckets t k (suc rounds) b w h =
    let (e, l) = next_bucket_lem size b h in
    let stops =
      probe-next size t (next_bucket size b * 16) k (buckets (next_bucket size b)) (w.row _ l) in
    rw e (get_from-absent size t k rounds (next_bucket size b * 16) 16 stops)

get_from-go_on :
    (size : ℕ) (buckets : Buckets) (t : Slots) (k rounds b n : ℕ) (o : Option ℕ)
    → Represents size buckets t
    → b < size
    → probe size t (b * 16) 0 k ≡ answer n o
    → get_from size t k (suc rounds) (b * 16) 0 ≡ o
unfolding get_from
get_from-go_on size buckets t k rounds b n (some v) w h e = rw (get_from, e) refl
get_from-go_on size buckets t k rounds b n none w h e = elim (Bool-cases (n == 16)) [
  | inl y ↦ rw (get_from, e, y) (get_from-next size buckets t k rounds b w h)
  | inr y ↦ rw (get_from, e, y) refl
]

get_from-Row :
    (size rounds : ℕ) (buckets : Buckets) (t : Slots) (k b : ℕ)
    → Represents size buckets t
    → b < size
    → 0 < rounds
    → get_from size t k rounds (b * 16) 0 ≡ HashMap.get_val k (buckets b)
get_from-Row size zero buckets t k b w h l = absurd (omega arith)
get_from-Row size (suc rounds) buckets t k b w h l =
    get_from-go_on size buckets t k rounds b (length (buckets b)) _ w h
      (probe-Row size t b k (buckets b) h (w.row b h))

-- In such a table `GetVal` finds what the hash of the key has for it.
pub get_val-Represents :
    (size : ℕ) (buckets : Buckets) (t : Slots) (k : ℕ)
    → Represents size buckets t
    → get_val size k t ≡ HashMap.get_val k (buckets (bucket_of size k))
unfolding get_val
get_val-Represents size buckets t k w =
    get_from-Row size size buckets t k (bucket_of size k) w (bucket_within size k w.positive)
      w.positive
