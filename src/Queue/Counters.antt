-- ===== src/Queue/Counters.antt =====
-- The counters of 64 bits, against the positions that they stand for.
use naoto_exchange.Common.{
  ℕ, suc, ◌+◌, ◌-◌, ◌^◌, ◌≤◌, ◌<◌, ◌==◌, ◌≡◌, inl, inr, leb, ap, arith, Bool-cases,
}
use naoto_exchange.Wire.{u64}
use naoto_exchange.Queue.{sub_u64}

pub sub_u64_lem : (h t : ℕ) → h ≤ t → t < h + 2 ^ 64 → sub_u64 (u64 t) (u64 h) ≡ t - h
unfolding sub_u64
sub_u64_lem h t a b = omega arith

pub u64-suc : (t : ℕ) → u64 (u64 t + 1) ≡ u64 (suc t)
u64-suc t = omega arith

pub u64_inj : (h t : ℕ) → h ≤ t → t < h + 2 ^ 64 → u64 t ≡ u64 h → t ≡ h
u64_inj h t a b e = omega arith

pub full_test :
    (k h t : ℕ)
    → 2 ^ k ≤ 2 ^ 63
    → h ≤ t
    → t ≤ h + 2 ^ k
    → leb (2 ^ k) (sub_u64 (u64 t) (u64 h)) ≡ leb (2 ^ k) (t - h)
full_test k h t c a b = ap (leb (2 ^ k)) (sub_u64_lem h t a (omega arith))

pub empty_test : (h t : ℕ) → h ≤ t → t < h + 2 ^ 64 → (u64 t == u64 h) ≡ (t == h)
empty_test h t a b = elim (Bool-cases (t == h)) [
  | inl e ↦ rw e (ground (arith, e))
  | inr e ↦ rw e (ground (arith, u64_inj h t a b))
]
