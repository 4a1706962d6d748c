-- ===== src/HashMap/Rows.antt =====
-- The sixteen slots of a hash in market_server/common/include/flat_hash_map.hpp as a list of entries:
-- those it has stand in front, each at the distance from the home that its tag says.
use naoto_exchange.Common.{
  ℕ, zero, suc, ◌+◌, ◌*◌, ◌≤◌, ◌<◌, List, [], ◌∷◌, Bool, true, false, Option, none, some, ◌≡◌, inl,
  inr, refl, arith, length, ◌==◌, if◌then◌else◌, Bool-cases,
}
use native.Mathlib.Nat.{mod-eq_of_lt}
use naoto_exchange.HashMap
use naoto_exchange.HashMap.Table.{
  Slots, entry, empty_slot, foot_of, is_stop, is_match, first_lane, lanes_of, check_matches, Probe,
  found, absent, go_on,
}

-- The slots from lane `i` on, of which there are `c`.
abbrev pub Row : Slots → ℕ → ℕ → ℕ → List (ℕ × ℕ) → Type 0
Row t base zero i [] = Unit
Row t base zero i (e ∷ es) = ⊥
Row t base (suc c) i [] = (t (base + i) ≡ empty_slot) × Row t base c (suc i) []
Row t base (suc c) i (e ∷ es) = (t (base + i) ≡ entry i e.0 e.1) × Row t base c (suc i) es

pub first_lane-Row :
    (t : Slots) (base c i : ℕ) (es : List (ℕ × ℕ))
    → i + c ≡ 16
    → Row t base c i es
    → first_lane (is_stop t base 0) c i ≡ i + length es
unfolding first_lane is_stop
first_lane-Row t base zero i [] h r = omega arith
first_lane-Row t base zero i (e ∷ es) h r = absurd r
first_lane-Row t base (suc c) i [] h (p, r) = rw p (omega arith)
first_lane-Row t base (suc c) i (e ∷ es) h (p, r) =
    rw p (ground (arith, first_lane-Row t base c (suc i) es (omega arith) r))

-- What a row says of a key, by the entry that it has for it.
abbrev pub answer : ℕ → Option ℕ → Probe
answer n none = if n == 16 then go_on else absent
answer n (some v) = found v

lanes_of-Row :
    (t : Slots) (base c i f : ℕ)
    → i + c ≡ 16
    → Row t base c i []
    → lanes_of (is_match t base 0 f) c i ≡ []
unfolding lanes_of is_match
lanes_of-Row t base zero i f h r = refl
lanes_of-Row t base (suc c) i f h (p, r) =
    rw p (ground (arith, lanes_of-Row t base c (suc i) f (omega arith) r))

match_of :
    (t : Slots) (base i f j v : ℕ)
    → i < 16
    → t (base + i) ≡ entry i j v
    → is_match t base 0 f i ≡ (foot_of j == f)
unfolding is_match
match_of t base i f j v l e = rw e (ground arith)

foot_differs : (j k : ℕ) → (foot_of j == foot_of k) ≡ false → (k == j) ≡ false
foot_differs j k e = ground (arith, e)

-- The lane of an entry is among the matches where the foot prints agree, and then its key is compared.
check_lane :
    (size : ℕ) (t : Slots) (base i k n j v : ℕ) (p : Probe) (lanes : List ℕ)
    → base + 16 ≤ size * 16
    → i < n
    → i < 16
    → t (base + i) ≡ entry i j v
    → check_matches size t base n k lanes ≡ p
    → check_matches size t base n k (if is_match t base 0 (foot_of k) i then i ∷ lanes else lanes)
      ≡ (if k == j then found v else p)
unfolding check_matches
check_lane size t base i k n j v p lanes room l h e rest =
    rw (match_of t base i (foot_of k) j v h e) (elim (Bool-cases (foot_of j == foot_of k)) [
      | inl y ↦
          rw (y, mod-eq_of_lt {n = base + i} {m = size * 16} (omega arith), e, y)
            (ground (arith, rest))
      | inr y ↦ rw (y, foot_differs j k y) rest
    ])

answer-if :
    (n v : ℕ) (b : Bool) (o : Option ℕ)
    → answer n (if b then some v else o) ≡ (if b then found v else answer n o)
answer-if n v true o = refl
answer-if n v false o = refl

pub check_matches-Row :
    (size : ℕ) (t : Slots) (base c i k n : ℕ) (es : List (ℕ × ℕ))
    → base + 16 ≤ size * 16
    → i + c ≡ 16
    → i + length es ≡ n
    → Row t base c i es
    → check_matches size t base n k (lanes_of (is_match t base 0 (foot_of k)) c i)
      ≡ answer n (HashMap.get_val k es)
unfolding check_matches lanes_of HashMap.get_val
check_matches-Row size t base zero i k n [] room h l r = refl
check_matches-Row size t base zero i k n (e ∷ es) room h l r = absurd r
check_matches-Row size t base (suc c) i k n [] room h l r =
    rw (lanes_of-Row t base (suc c) i (foot_of k) h r) refl
check_matches-Row size t base (suc c) i k n (e ∷ es) room h l (p, r) =
    let rest = check_matches-Row size t base c (suc i) k n es room (omega arith) (omega arith) r in
    let lane = check_lane size t base i k n e.0 e.1 _ _ room (omega arith) (omega arith) p rest in
    rw (answer-if n e.1 (k == e.0) (HashMap.get_val k es)) lane
