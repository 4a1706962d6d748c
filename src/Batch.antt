-- ===== src/Batch.antt =====
-- Reports that are applied to the buffered states of several clients and then flushed once per client:
-- what client_states_writer.hpp does in the gateway and in the account service, over any buffer.
pub mod Laws
use naoto_exchange.Common.{
  ℕ, List, [], ◌∷◌, Bool, true, false, Option, none, some, ◌==◌, ◌≡◌, if◌then◌else◌,
}

-- A buffer `S` of states `C` that takes reports `R`: what is shown, what the next flush shows, and
-- the laws of the two operations on a buffer whose copies agree.
pub record Buffered (S C R : Type 0) : Type 1 where
  pub IsSynced : S → Type 0
  pub pending : S → C
  pub shown : S → C
  pub book : R → S → S
  pub flush : S → S
  pub account : R → C → C
  pub book_lem :
      (r : R) (s : S)
      → IsSynced s
      → IsSynced (book r s)
        × (pending (book r s) ≡ account r (pending s))
        × (shown (book r s) ≡ shown s)
  pub flush_lem :
      (s : S)
      → IsSynced s
      → IsSynced (flush s) × (pending (flush s) ≡ pending s) × (shown (flush s) ≡ pending s)

abbrev pub member : ℕ → List ℕ → Bool
member x [] = false
member x (y ∷ ys) = if x == y then true else member x ys

abbrev pub is_at : ℕ → Option ℕ → Bool
is_at j none = false
is_at j (some i) = j == i

-- The states by index, with the one at an index replaced.
abbrev pub set_at {ℓ} : {S : Type ℓ} → ℕ → S → (ℕ → S) → ℕ → S
set_at i s states j = if j == i then s else states j

module _ {S C R : Type 0} (b : Buffered S C R) (target : R → Option ℕ) where
  unfoldable pub receive : R → (ℕ → S) → ℕ → S
  receive r states = elim (target r) [
    | none ↦ states
    | some i ↦ set_at i (b.book r (states i)) states
  ]

  unfoldable pub receive_all : List R → (ℕ → S) → ℕ → S
  unfolding receive
  receive_all [] states = states
  receive_all (r ∷ rs) states = receive_all rs (receive r states)

  unfoldable pub flush_touched : List R → List ℕ → (ℕ → S) → ℕ → S
  flush_touched [] touched states = states
  flush_touched (r ∷ rs) touched states = elim (target r) [
    | none ↦ flush_touched rs touched states
    | some i ↦
        if member i touched
        then flush_touched rs touched states
        else flush_touched rs (i ∷ touched) (set_at i (b.flush (states i)) states)
  ]

  -- The reports on one client, applied to its state in turn.
  unfoldable pub account_all : ℕ → List R → C → C
  account_all j [] c = c
  account_all j (r ∷ rs) c = account_all j rs (if is_at j (target r) then b.account r c else c)

  -- What is shown is all there is.
  abbrev pub IsSettled : S → Type 0
  IsSettled s = b.IsSynced s × (b.pending s ≡ b.shown s)
