-- ===== src/Account/Client/Keys.antt =====
-- The check of a key.
use naoto_exchange.Common.{
  ℕ, zero, suc, ◌+◌, ◌<◌, ◌≤◌, true, ◌==◌, ◌≡◌, ◌↔◌, inl, inr, refl, arith, Bool-cases,
}
use naoto_exchange.Account.Client.{Key, ClientState, same_bytes, check_key}

same_bytes_agree :
    (a b : Key) (first left : ℕ)
    → same_bytes a b first left ≡ true
    → (i : ℕ) → first ≤ i
    → i < first + left
    → a i ≡ b i
unfolding same_bytes
same_bytes_agree a b first zero h i p q = absurd (omega arith)
same_bytes_agree a b first (suc left) h i p q = elim (Bool-cases (i == first)) [
  | inl t ↦ ground arith
  | inr f ↦ same_bytes_agree a b (suc first) left (ground arith) i (ground arith) (omega arith)
]

same_byte : (x y : ℕ) → x ≡ y → (x == y) ≡ true
same_byte x y h = ground arith

same_bytes_of :
    (a b : Key) (first left : ℕ)
    → ((i : ℕ) → first ≤ i → i < first + left → a i ≡ b i)
    → same_bytes a b first left ≡ true
unfolding same_bytes
same_bytes_of a b first zero h = refl
same_bytes_of a b first (suc left) h =
    rw (same_byte (a first) (b first) (h first (omega arith) (omega arith)))
      (same_bytes_of a b (suc first) left (λ i p q. h i (omega arith) (omega arith)))

-- A key is accepted exactly when its hash is the client's, byte by byte.
pub check_key_lem :
    (sha256 : Key → Key) (key : Key) (c : ClientState)
    → (check_key sha256 key c ≡ true) ↔ ((i : ℕ) → i < 32 → sha256 key i ≡ c.key i)
unfolding check_key
check_key_lem sha256 key c = (
  λ h i l. same_bytes_agree (sha256 key) c.key 0 32 h i (omega arith) l,
  λ h. same_bytes_of (sha256 key) c.key 0 32 (λ i p q. h i q),
)
