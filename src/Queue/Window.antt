-- ===== src/Queue/Window.antt =====
-- The buffer: which positions share a place, and what a write leaves.
use naoto_exchange.Common.{
  ℕ, zero, suc, ◌+◌, ◌-◌, ◌*◌, ◌/◌, ◌%◌, ◌^◌, ◌≤◌, ◌<◌, List, [], ◌∷◌, ◌++◌, ◌≡◌, ◌≢◌, inl, inr,
  ltb, length, update, sym, ap, subst, ◌∙◌, arith, Bool-cases,
}
use native.Mathlib.Nat.{
  mod-mod_of_dvd, mod-add-div, mul-le-mul_left, dvd_refl, dvd-mul_right_of_dvd, pow-suc,
  pow-le-pow_right,
}
use Prim.Native.Nat.{◌∣◌}
use naoto_exchange.Wire.{u64}

-- The elements of the list stand in the buffer from an absolute position on.
abbrev pub Holds {ℓ} : {A : Type ℓ} → (ℕ → A) → ℕ → ℕ → List A → Type ℓ
Holds buffer k h [] = Unit
Holds buffer k h (x ∷ xs) = (buffer (h % 2 ^ k) ≡ x) × Holds buffer k (suc h) xs

-- Positions less than a buffer apart have places of their own.
multiple : (n d p q : ℕ) → d + n * p ≡ n * q → 0 < d → d < n → ⊥
multiple n d p q e x y = elim (Bool-cases (ltb p q)) [
  | inl t ↦ let m : n * suc p ≤ n * q = mul-le-mul_left n (ground arith) in absurd (grind arith)
  | inr t ↦ let m : n * q ≤ n * p = mul-le-mul_left n (ground arith) in absurd (grind arith)
]

pub places : (n a t : ℕ) → a < t → t < a + n → (a % n) ≢ (t % n)
places n a t x y e =
    multiple n (t - a) (a / n) (t / n) (omega (arith, mod-add-div a n, mod-add-div t n, e))
      (omega arith) (omega arith)

update-other {ℓ} : {A : Type ℓ} (i j : ℕ) (x : A) (f : ℕ → A) → j ≢ i → update i x f j ≡ f j
unfolding update
update-other i j x f h = ground arith

update-same {ℓ} : {A : Type ℓ} (i j : ℕ) (x : A) (f : ℕ → A) → j ≡ i → update i x f j ≡ x
unfolding update
update-same i j x f h = ground arith

pub Holds-append {ℓ} :
    {A : Type ℓ} (buffer : ℕ → A) (k h t : ℕ) (xs : List A) (x : A)
    → t ≡ h + length xs
    → t < h + 2 ^ k
    → Holds buffer k h xs
    → Holds (update (t % 2 ^ k) x buffer) k h (xs ++ x ∷ [])
Holds-append buffer k h t [] x e b c =
    (update-same (t % 2 ^ k) (h % 2 ^ k) x buffer (ap (λ p. p % 2 ^ k) (omega arith)), tt)
Holds-append buffer k h t (y ∷ ys) x e b c = (
  update-other (t % 2 ^ k) (h % 2 ^ k) x buffer (places (2 ^ k) h t (omega arith) b) ∙ c.0,
  Holds-append buffer k (suc h) t ys x (omega arith) (omega arith) c.1,
)

pub power-divides : (j k : ℕ) → 2 ^ k ∣ 2 ^ (j + k)
power-divides zero k =
    let e : k ≡ 0 + k = omega arith in subst (λ m. 2 ^ k ∣ 2 ^ m) e (dvd_refl (2 ^ k))
power-divides (suc j) k =
    let e : suc (j + k) ≡ suc j + k = omega arith in
    subst (λ m. 2 ^ k ∣ 2 ^ m) e
      (subst (λ m. 2 ^ k ∣ m) (sym (pow-suc 2 (j + k)))
        (dvd-mul_right_of_dvd (2 ^ k) (power-divides j k) 2))

pub index_lem : (k t : ℕ) → k ≤ 63 → u64 t % 2 ^ k ≡ t % 2 ^ k
index_lem k t h =
    let e : 64 - k + k ≡ 64 = omega arith in
    mod-mod_of_dvd (2 ^ k) t (subst (λ m. 2 ^ k ∣ 2 ^ m) e (power-divides (64 - k) k))

pub size_small : (k : ℕ) → k ≤ 63 → 2 ^ k ≤ 2 ^ 63
size_small k h = pow-le-pow_right (omega arith) h
