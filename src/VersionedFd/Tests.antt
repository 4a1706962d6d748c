-- ===== src/VersionedFd/Tests.antt =====
-- A descriptor that is switched from 5 to 9 and then closed.
use naoto_exchange.Common.{ℕ, List, [], ◌∷◌, ◌≡◌, ◌≢◌, refl, arith, ℤ, pos, negsuc}
use naoto_exchange.VersionedFd.{unsigned_32, signed_32, pack, fd_of, new_versioned_fd, switch_fd}
use naoto_exchange.VersionedFd.Switches.{switch_all, switch_all_differs}

abbrev first : ℕ
first = 5

abbrev switches : List ℤ
switches = pos 9 ∷ negsuc 0 ∷ []

closed : fd_of (switch_all switches first) ≡ negsuc 0
unfolding fd_of switch_all switch_fd pack unsigned_32 signed_32
closed = refl

opened : new_versioned_fd (pos 5) ≡ first
unfolding new_versioned_fd pack unsigned_32
opened = refl

switch_all_differs_example : switch_all switches first ≢ first
switch_all_differs_example = switch_all_differs switches first (omega arith) (omega arith)
