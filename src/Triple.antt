-- ===== src/Triple.antt =====
-- What the triple buffers of the gateway and of the account service share: three copies, of which the
-- value of `Complete` names the one shown, and the positions of a client. A `std::array` of
-- `MaxPositions` elements is a function of the index; the code reads it below `MaxPositions` only.
use naoto_exchange.Common.{
  ℕ, ◌==◌, if◌then◌else◌, ℤ, pos, ◌+ℤ◌, ◌≡◌, inl, inr, refl, sym, int_laws, Bool-cases, +ℤ_assoc,
}

abbrev pub max_positions : ℕ
max_positions = 16

abbrev pub Positions {ℓ} : Type ℓ → Type ℓ
Positions A = ℕ → A

-- The values of `Complete`, and the one that follows: 0, 1, 2, and 0 again.
pub data Index : Type 0 where
  index_0 index_1 index_2 : Index

abbrev pub next : Index → Index
next index_0 = index_1
next index_1 = index_2
next index_2 = index_0

-- Three objects, by the value of `Complete`.
pub record Three {ℓ} (A : Type ℓ) : Type ℓ where
  pub at_0 : A
  pub at_1 : A
  pub at_2 : A

abbrev pub at {ℓ} : {A : Type ℓ} → Index → Three A → A
at index_0 t = t.at_0
at index_1 t = t.at_1
at index_2 t = t.at_2

abbrev pub put {ℓ} : {A : Type ℓ} → Index → A → Three A → Three A
put index_0 a t = record t { at_0 = a }
put index_1 a t = record t { at_1 = a }
put index_2 a t = record t { at_2 = a }

-- The sum of a delta and the amount, at the positions in the asset.
abbrev pub add_at : Positions ℕ → ℕ → ℤ → Positions ℤ → Positions ℤ
add_at ids asset amount d i = if ids i == asset then d i +ℤ amount else d i

-- The copy that is prepared next catches up with the one shown: it was shown before, and the three
-- deltas are the one that led from it, the one just applied, and one that is zero.
pub caught_up_0 : (a b c x y : ℤ) → b ≡ a → a ≡ c +ℤ y → c +ℤ x +ℤ pos 0 +ℤ y ≡ b +ℤ x
caught_up_0 a b c x y h k = rw (h, k) (omega int_laws)

pub caught_up_1 : (a b c x y : ℤ) → b ≡ a → a ≡ c +ℤ y → c +ℤ y +ℤ x +ℤ pos 0 ≡ b +ℤ x
caught_up_1 a b c x y h k = rw (h, k) (omega int_laws)

pub caught_up_2 : (a b c x y : ℤ) → b ≡ a → a ≡ c +ℤ y → c +ℤ pos 0 +ℤ y +ℤ x ≡ b +ℤ x
caught_up_2 a b c x y h k = rw (h, k) (omega int_laws)

pub add_at_pending :
    (ids : Positions ℕ) (asset : ℕ) (amount : ℤ) (c d : Positions ℤ) (i : ℕ)
    → c i +ℤ add_at ids asset amount d i ≡ add_at ids asset amount (λ j. c j +ℤ d j) i
add_at_pending ids asset amount c d i = elim (Bool-cases (ids i == asset)) [
  | inl e ↦ rw e (sym (+ℤ_assoc (c i) (d i) amount))
  | inr e ↦ rw e refl
]
