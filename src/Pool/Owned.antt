-- ===== src/Pool/Owned.antt =====
-- Every object is either free or held by one user, as long as users release what they hold.
use naoto_exchange.Common.{
  ℕ, zero, suc, ◌+◌, ◌≤◌, ◌<◌, List, [], ◌∷◌, Bool, true, Option, none, some, ◌==◌, ◌≡◌, subst,
  refl, ap, ltb, if◌then◌else◌, length, update, arith,
}
use naoto_exchange.Pool.{StoragePool, new_pool, take, acquire, release}

-- The free objects, the next one first.
abbrev pub free_list : (ℕ → ℕ) → ℕ → List ℕ
free_list f zero = []
free_list f (suc n) = f n ∷ free_list f n

abbrev pub occurs : ℕ → ℕ → ℕ
occurs a b = if a == b then 1 else 0

unfoldable pub count : ℕ → List ℕ → ℕ
count a [] = 0
count a (b ∷ bs) = occurs a b + count a bs

unfoldable pub remove : ℕ → List ℕ → List ℕ
remove a [] = []
remove a (b ∷ bs) = let rest = remove a bs in if a == b then bs else b ∷ rest

-- The pool and what its users hold: they acquire objects, and release objects that they hold.
pub data Reach (size : ℕ) : StoragePool → List ℕ → Type 0 where
  start : Reach size (new_pool size) []
  acquired :
      (p p' : StoragePool) (held : List ℕ) (a : ℕ)
      → Reach size p held
      → acquire p ≡ (some a, p')
      → Reach size p' (a ∷ held)
  released :
      (p : StoragePool) (held : List ℕ) (a : ℕ)
      → Reach size p held
      → 0 < count a held
      → Reach size (release (some a) p).1 (remove a held)

-- Each object of the storage is held once and not free, or free once and not held; and the array has
-- room for all that is held.
pub record IsOwned (size : ℕ) (p : StoragePool) (held : List ℕ) : Type 0 where
  pub same_size : p.size ≡ size
  pub total : p.free_size + length held ≡ size
  pub once :
      (a : ℕ)
      → count a (free_list p.free_queue p.free_size) + count a held ≡ (if ltb a size then 1 else 0)

count_all : (n a : ℕ) → count a (free_list (λ i. i) n) ≡ (if ltb a n then 1 else 0)
unfolding count
count_all zero a = ground arith
count_all (suc n) a = ground (arith, count_all n a)

free_list-update : (f : ℕ → ℕ) (m n a : ℕ) → n ≤ m → free_list (update m a f) n ≡ free_list f n
unfolding update
free_list-update f m zero a h = refl
free_list-update f m (suc n) a h =
    rw (free_list-update f m n a (omega arith)) (ap (λ b. b ∷ free_list f n) (ground arith))

pub length-remove : (a : ℕ) (bs : List ℕ) → 0 < count a bs → suc (length (remove a bs)) ≡ length bs
unfolding count remove
length-remove a [] h = absurd (omega arith)
length-remove a (b ∷ bs) h = ground (arith, length-remove a bs)

pub count-remove :
    (a c : ℕ) (bs : List ℕ) → 0 < count a bs → occurs c a + count c (remove a bs) ≡ count c bs
unfolding count remove
count-remove a c [] h = absurd (omega arith)
count-remove a c (b ∷ bs) h = ground (arith, count-remove a c bs)

-- After an acquisition, the object that it yields is held; one that yields none finds all held.
abbrev pub AcquiredFrom : ℕ → StoragePool → List ℕ → Option ℕ × StoragePool → Type 0
AcquiredFrom size p held (none, p') = (p' ≡ p) × (length held ≡ size)
AcquiredFrom size p held (some a, p') = IsOwned size p' (a ∷ held) × (count a held ≡ 0)

pub not_held : (a m n : ℕ) (b : Bool) → occurs a a + m + n ≡ (if b then 1 else 0) → n ≡ 0
not_held a m n b h = ground arith

take-AcquiredFrom :
    (n size : ℕ) (p : StoragePool) (held : List ℕ)
    → p.free_size ≡ n
    → IsOwned size p held
    → AcquiredFrom size p held (take n p)
unfolding count
take-AcquiredFrom zero size p held e h = (refl, omega (arith, h.total, e))
take-AcquiredFrom (suc n) size p held e h =
    let once : (c : ℕ)
        → occurs c (p.free_queue n) + count c (free_list p.free_queue n) + count c held
          ≡ (if ltb c size then 1 else 0) =
      λ c.
        subst
          (λ m. count c (free_list p.free_queue m) + count c held ≡ (if ltb c size then 1 else 0)) e
          (h.once c) in
    (
      record {
        same_size = h.same_size;
        total = omega (arith, h.total, e);
        once = λ c. omega (arith, once c);
      },
      not_held (p.free_queue n) _ _ _ (once (p.free_queue n)),
    )

count-released :
    (f : ℕ → ℕ) (n a c : ℕ)
    → count c (free_list (update n a f) (suc n)) ≡ occurs c a + count c (free_list f n)
unfolding count update
count-released f n a c = rw (free_list-update f n n a (omega arith)) (ground arith)

release-IsOwned :
    (size : ℕ) (p : StoragePool) (held : List ℕ) (a : ℕ)
    → IsOwned size p held
    → 0 < count a held
    → ((release (some a) p).0 ≡ true) × IsOwned size (release (some a) p).1 (remove a held)
unfolding release
release-IsOwned size p held a h c =
    let room : ltb p.free_size p.size ≡ true =
      ground (arith, h.total, h.same_size, length-remove a held c) in
    rw (room, release)
      (
        refl,
        record {
          same_size = h.same_size;
          total = omega (arith, h.total, length-remove a held c);
          once = λ b. omega (
            arith,
            h.once b,
            count-released p.free_queue p.free_size a b,
            count-remove a b held c,
          );
        },
      )

pub new_pool-IsOwned : (size : ℕ) → IsOwned size (new_pool size) []
unfolding count
new_pool-IsOwned size = record {
  same_size = refl;
  total = omega arith;
  once = λ a. omega (arith, count_all size a);
}

IsOwned-result :
    (size : ℕ) (p p' : StoragePool) (held : List ℕ) (a : ℕ) (r : Option ℕ × StoragePool)
    → AcquiredFrom size p held r
    → r ≡ (some a, p')
    → IsOwned size p' (a ∷ held)
IsOwned-result size p p' held a r h e = (subst (AcquiredFrom size p held) e h).0

-- Whatever its users did so far, each object of the pool is free or held, never both and never
-- twice, as long as users release only what they hold.
pub Reach-IsOwned :
    (size : ℕ) (p : StoragePool) (held : List ℕ) → Reach size p held → IsOwned size p held
unfolding acquire
Reach-IsOwned size p held start = new_pool-IsOwned size
Reach-IsOwned size p held (acquired q p' rest a r e) =
    IsOwned-result size q p rest a (take q.free_size q)
      (take-AcquiredFrom q.free_size size q rest refl (Reach-IsOwned size q rest r)) e
Reach-IsOwned size p held (released q rest a r c) =
    (release-IsOwned size q rest a (Reach-IsOwned size q rest r) c).1

-- In a pool used so, an acquisition yields an object that no one holds and that is then held, or
-- yields none, and then all objects are held.
acquire-AcquiredFrom :
    (size : ℕ) (p : StoragePool) (held : List ℕ)
    → Reach size p held
    → AcquiredFrom size p held (acquire p)
unfolding acquire
acquire-AcquiredFrom size p held r =
    take-AcquiredFrom p.free_size size p held refl (Reach-IsOwned size p held r)

-- In a pool used so, the release of an object that is held succeeds.
pub release_held :
    (size : ℕ) (p : StoragePool) (held : List ℕ) (a : ℕ)
    → Reach size p held
    → 0 < count a held
    → (release (some a) p).0 ≡ true
release_held size p held a r c = (release-IsOwned size p held a (Reach-IsOwned size p held r) c).0
