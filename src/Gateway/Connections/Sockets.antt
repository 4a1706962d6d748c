-- ===== src/Gateway/Connections/Sockets.antt =====
-- The open sockets are those of the slots, but for those whose handshake failed.
use naoto_exchange.Common.{
  ℕ, zero, suc, ◌+◌, ◌<◌, List, [], ◌∷◌, false, ◌≡◌, refl, sym, ap, ◌∙◌, inl, inr, arith,
  if◌then◌else◌, if_true, if_false, length, get_or, set, ℤ, negsuc, eqb_ℤ, eqb_ℤ→eq, eq→eqb_ℤ,
  Bool-cases,
}
use mathlib.Core.Bool.{true≢false}
use naoto_exchange.VersionedFd.{fd_of}
use naoto_exchange.Gateway.Connections.{minus_one, close_fd, connect_to_service, close_old}

-- How often a descriptor is another one, stands in a list, and stands in slots.
unfoldable pub hit : ℤ → ℤ → ℕ
hit a g = if eqb_ℤ a g then 1 else 0

unfoldable pub count : ℤ → List ℤ → ℕ
unfolding hit
count g [] = 0
count g (a ∷ as') = hit a g + count g as'

unfoldable pub slots : ℤ → List ℕ → ℕ
unfolding hit fd_of
slots g [] = 0
slots g (w ∷ ws) = hit (fd_of w) g + slots g ws

hit_self : (a : ℤ) → hit a a ≡ 1
unfolding hit
hit_self a = rw (eq→eqb_ℤ a a refl) refl

other_way : (a b : ℤ) → eqb_ℤ a b ≡ false → eqb_ℤ b a ≡ false
other_way a b h = elim (Bool-cases (eqb_ℤ b a)) [
  | inl y ↦ let e = eq→eqb_ℤ a b (sym (eqb_ℤ→eq b a y)) in absurd (true≢false (sym e ∙ h))
  | inr y ↦ y
]

pub hit_none : (g : ℤ) → eqb_ℤ g (negsuc 0) ≡ false → hit (negsuc 0) g ≡ 0
unfolding hit
hit_none g h = if_false (eqb_ℤ (negsuc 0) g) 1 0 (other_way g (negsuc 0) h)

close_fd-other :
    (a s : ℤ) (ss : List ℤ) → eqb_ℤ a s ≡ false → close_fd a (s ∷ ss) ≡ s ∷ close_fd a ss
unfolding close_fd
close_fd-other a s ss y = if_false (eqb_ℤ a s) _ _ y

hit_other : (a s : ℤ) → eqb_ℤ a s ≡ false → hit s a ≡ 0
unfolding hit
hit_other a s y = if_false (eqb_ℤ s a) 1 0 (other_way a s y)

count-close_fd :
    (a g : ℤ) (ss : List ℤ) → 0 < count a ss → hit a g + count g (close_fd a ss) ≡ count g ss
unfolding count close_fd
count-close_fd a g [] h = absurd (omega arith)
count-close_fd a g (s ∷ ss) h = elim (Bool-cases (eqb_ℤ a s)) [
  | inl y ↦ rw (eqb_ℤ→eq a s y, eq→eqb_ℤ s s refl) refl
  | inr y ↦
      let there : 0 < count a ss = omega (arith, h, hit_other a s y) in
      let rest = count-close_fd a g ss there in
      ap (λ l. hit a g + count g l) (close_fd-other a s ss y) ∙ omega (arith, rest)
]

pub slots-set :
    (g : ℤ) (ws : List ℕ) (i w : ℕ)
    → i < length ws
    → slots g (set ws i w) + hit (fd_of (get_or ws i 0)) g ≡ slots g ws + hit (fd_of w) g
unfolding slots
slots-set g [] i w h = absurd (omega arith)
slots-set g (v ∷ ws) zero w h = omega arith
slots-set g (v ∷ ws) (suc i) w h = omega (arith, slots-set g ws i w (omega arith))

pub hit-connect :
    (fd g : ℤ) (ss : List ℤ)
    → eqb_ℤ g minus_one ≡ false
    → count g (connect_to_service fd ss) ≡ hit fd g + count g ss
unfolding count
hit-connect fd g ss n = elim (Bool-cases (eqb_ℤ fd minus_one)) [
  | inl y ↦
      let none_of : hit fd g ≡ 0 = ap (λ a. hit a g) (eqb_ℤ→eq fd minus_one y) ∙ hit_none g n in
      let same = ap (count g) (if_true (eqb_ℤ fd minus_one) ss (fd ∷ ss) y) in
      omega (arith, none_of, same)
  | inr y ↦ ap (count g) (if_false (eqb_ℤ fd minus_one) _ _ y)
]

count-close_old :
    (old : ℤ) (ss : List ℤ)
    → (eqb_ℤ old minus_one ≡ false → 0 < count old ss)
    → (g : ℤ) → eqb_ℤ g minus_one ≡ false
    → hit old g + count g (close_old old ss) ≡ count g ss
unfolding close_old
count-close_old old ss h g n = elim (Bool-cases (eqb_ℤ old minus_one)) [
  | inl y ↦
      let none_of : hit old g ≡ 0 = ap (λ a. hit a g) (eqb_ℤ→eq old minus_one y) ∙ hit_none g n in
      let same = ap (count g) (if_true (eqb_ℤ old minus_one) ss (close_fd old ss) y) in
      omega (arith, none_of, same)
  | inr y ↦
      ap (λ l. hit old g + count g l) (if_false (eqb_ℤ old minus_one) ss (close_fd old ss) y)
      ∙ count-close_fd old g ss (h y)
]

-- A switch in one slot, beside which the others hold `others`.
pub switched :
    (others : ℤ → ℕ) (fd old : ℤ) (ss : List ℤ)
    → ((g : ℤ) → eqb_ℤ g minus_one ≡ false → count g ss ≡ others g + hit old g)
    → (g : ℤ) → eqb_ℤ g minus_one ≡ false
    → count g (close_old old (connect_to_service fd ss)) ≡ others g + hit fd g
switched others fd old ss h g n =
    let there : eqb_ℤ old minus_one ≡ false → 0 < count old (connect_to_service fd ss) =
      λ y. omega (arith, hit-connect fd old ss y, h old y, hit_self old) in
    omega (
      arith,
      count-close_old old (connect_to_service fd ss) there g n,
      hit-connect fd g ss n,
      h g n,
    )
