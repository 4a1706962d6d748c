-- ===== src/Emitter/Numbers.antt =====
-- The sequence ids that market_server/common/include/udp_multicast_emitter.hpp writes in the objects.
use naoto_exchange.Common.{
  ℕ, suc, ◌+◌, ◌^◌, ◌<◌, ◌≤◌, List, [], ◌∷◌, ◌++◌, ◌≡◌, ◌≢◌, refl, ap, sym, arith, length, take,
  drop, take-drop, All,
}
use naoto_exchange.Wire.{OrderStateReport, u32}
use naoto_exchange.Emitter.{stamp, after}

pub stamp-append :
    (s : ℕ) (xs ys : List OrderStateReport)
    → stamp s (xs ++ ys) ≡ stamp s xs ++ stamp (after s xs) ys
unfolding stamp after
stamp-append s [] ys = refl
stamp-append s (x ∷ xs) ys =
    ap (λ l. record x { sequence_id = s } ∷ l) (stamp-append (u32 (s + 1)) xs ys)

pub after-append :
    (s : ℕ) (xs ys : List OrderStateReport) → after s (xs ++ ys) ≡ after (after s xs) ys
unfolding after
after-append s [] ys = refl
after-append s (x ∷ xs) ys = after-append (u32 (s + 1)) xs ys

-- A packet's objects and those that are left are numbered as all of them at once.
pub stamp-take :
    (s n : ℕ) (xs : List OrderStateReport)
    → stamp s (take n xs) ++ stamp (after s (take n xs)) (drop n xs) ≡ stamp s xs
stamp-take s n xs =
    rw (sym (stamp-append s (take n xs) (drop n xs))) (ap (stamp s) (take-drop n xs))

pub after-take :
    (s n : ℕ) (xs : List OrderStateReport) → after (after s (take n xs)) (drop n xs) ≡ after s xs
after-take s n xs =
    rw (sym (after-append s (take n xs) (drop n xs))) (ap (after s) (take-drop n xs))

pub after-length :
    (s : ℕ) (xs : List OrderStateReport) → s < 2 ^ 32 → after s xs ≡ u32 (s + length xs)
unfolding after
after-length s [] h = omega (arith, h)
after-length s (x ∷ xs) h = omega (arith, after-length (u32 (s + 1)) xs (omega arith))

-- Numbers that come after another one, fewer than 2 ^ 32 of them, differ from it.
pub stamp-differs :
    (m n s : ℕ) (xs : List OrderStateReport)
    → m < 2 ^ 32
    → s ≡ u32 (m + n)
    → 0 < n
    → n + length xs ≤ 2 ^ 32
    → All (λ x. x.sequence_id ≢ m) (stamp s xs)
unfolding stamp
stamp-differs m n s [] h e l f = tt
stamp-differs m n s (x ∷ xs) h e l f = (
  omega (arith, h, e, l, f),
  stamp-differs m (suc n) (u32 (s + 1)) xs h (omega (arith, e)) (omega arith) (omega (arith, f)),
)
