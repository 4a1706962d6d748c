-- ===== src/VersionedFd/Switches.antt =====
-- What a reader of the word learns of the switches.
use naoto_exchange.Common.{
  ℕ, suc, ◌+◌, ◌/◌, ◌%◌, ◌^◌, ◌<◌, List, [], ◌∷◌, ◌≡◌, ◌≢◌, sym, ap, ◌∙◌, arith, length, ℤ, pos,
  negsuc, ◌≤ℤ◌, ◌<ℤ◌,
}
use naoto_exchange.Wire.{u32}
use naoto_exchange.VersionedFd.{unsigned_32, signed_32, pack, fd_of, gen_of, switch_fd}

unsigned_32_small : (fd : ℤ) → unsigned_32 fd < 2 ^ 32
unfolding unsigned_32
unsigned_32_small (pos n) = omega arith
unsigned_32_small (negsuc n) = omega arith

signed_unsigned :
    (fd : ℤ) → negsuc 2147483647 ≤ℤ fd → fd <ℤ pos 2147483648 → signed_32 (unsigned_32 fd) ≡ fd
unfolding unsigned_32 signed_32
signed_unsigned (pos n) a b = ground arith
signed_unsigned (negsuc n) a b = ground arith

gen_pack : (fd : ℤ) (g : ℕ) → g < 2 ^ 32 → gen_of (pack fd g) ≡ g
unfolding gen_of pack
gen_pack fd g h = omega (arith, unsigned_32_small fd)

fd_pack : (fd : ℤ) (g : ℕ) → pack fd g % 2 ^ 32 ≡ unsigned_32 fd
unfolding pack
fd_pack fd g = omega (arith, unsigned_32_small fd)

next_gen : (g : ℕ) → u32 (g + 1) ≡ u32 (u32 g + 1)
next_gen g = omega arith

gen_switch : (fd : ℤ) (v : ℕ) → gen_of (switch_fd fd v) ≡ u32 (gen_of v + 1)
unfolding gen_of switch_fd
gen_switch fd v = gen_pack fd (u32 (v / 2 ^ 32 + 1)) (omega arith) ∙ next_gen (v / 2 ^ 32)

-- Switches one after the other.
unfoldable pub switch_all : List ℤ → ℕ → ℕ
switch_all [] v = v
switch_all (fd ∷ fds) v = switch_all fds (switch_fd fd v)

gen_small : (v : ℕ) → gen_of v ≡ u32 (gen_of v + 0)
unfolding gen_of
gen_small v = omega arith

gen_bound : (v : ℕ) → gen_of v < 2 ^ 32
unfolding gen_of
gen_bound v = omega arith

add_gen : (g n : ℕ) → u32 (u32 (g + 1) + n) ≡ u32 (g + suc n)
add_gen g n = omega arith

moved_on : (g n : ℕ) → g < 2 ^ 32 → 0 < n → n < 2 ^ 32 → g ≢ u32 (g + n)
moved_on g n a b c e = omega arith

gen_switch_all : (fds : List ℤ) (v : ℕ) → gen_of (switch_all fds v) ≡ u32 (gen_of v + length fds)
unfolding switch_all
gen_switch_all [] v = gen_small v
gen_switch_all (fd ∷ fds) v =
    gen_switch_all fds (switch_fd fd v)
    ∙ ap (λ g. u32 (g + length fds)) (gen_switch fd v)
    ∙ add_gen (gen_of v) (length fds)

-- After a switch to a descriptor of 32 bits, a reader finds that descriptor, and a version one higher
-- modulo 2^32.
pub switch_fd_lem :
    (fd : ℤ) (v : ℕ)
    → negsuc 2147483647 ≤ℤ fd
    → fd <ℤ pos 2147483648
    → (fd_of (switch_fd fd v) ≡ fd) × (gen_of (switch_fd fd v) ≡ u32 (gen_of v + 1))
unfolding switch_fd fd_of
switch_fd_lem fd v a b =
    (ap signed_32 (fd_pack fd (u32 (v / 2 ^ 32 + 1))) ∙ signed_unsigned fd a b, gen_switch fd v)

-- After at least one and less than 2^32 switches, the word differs from what it was: a reader that
-- finds it again has missed none.
pub switch_all_differs :
    (fds : List ℤ) (v : ℕ) → 0 < length fds → length fds < 2 ^ 32 → switch_all fds v ≢ v
switch_all_differs fds v a b e =
    moved_on (gen_of v) (length fds) (gen_bound v) a b (ap gen_of (sym e) ∙ gen_switch_all fds v)
