-- ===== src/VersionedFd.antt =====
-- market_server/common/include/versioned_fd.hpp: a file descriptor and the number of times that it
-- was switched, in one 64-bit word.
pub mod Switches
mod Tests
use naoto_exchange.Common.{ℕ, suc, ◌+◌, ◌-◌, ◌*◌, ◌/◌, ◌%◌, ◌^◌, ltb, if◌then◌else◌, ℤ, pos, negsuc}
use naoto_exchange.Wire.{u32}

-- The conversions between `int32_t` and `uint32_t`.
unfoldable pub unsigned_32 : ℤ → ℕ
unsigned_32 (pos n) = n % 2 ^ 32
unsigned_32 (negsuc n) = 2 ^ 32 - 1 - n % 2 ^ 32

unfoldable pub signed_32 : ℕ → ℤ
signed_32 n = if ltb n (2 ^ 31) then pos n else negsuc (2 ^ 32 - 1 - n)

-- `pack`: the halves of the word do not overlap, so that `|` is a sum.
unfoldable pub pack : ℤ → ℕ → ℕ
unfolding unsigned_32
pack fd gen = gen * 2 ^ 32 + unsigned_32 fd

-- `Fd` and `Gen`
unfoldable pub fd_of : ℕ → ℤ
unfolding signed_32
fd_of v = signed_32 (v % 2 ^ 32)

unfoldable pub gen_of : ℕ → ℕ
gen_of v = u32 (v / 2 ^ 32)

-- The constructors
unfoldable pub new_versioned_fd : ℤ → ℕ
unfolding pack
new_versioned_fd fd = pack fd 0

-- `SwitchFd`
unfoldable pub switch_fd : ℤ → ℕ → ℕ
unfolding pack
switch_fd fd old = pack fd (u32 (old / 2 ^ 32 + 1))
