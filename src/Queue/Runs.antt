-- ===== src/Queue/Runs.antt =====
-- The queue holds what was pushed and not popped, in order, however the two sides alternate.
use naoto_exchange.Common.{ℕ, ◌^◌, ◌≤◌, List, [], ◌∷◌, Bool, Option, ◌≡◌, refl}
use naoto_exchange.Queue.{SpscQueue, new_queue, try_push, try_pop}
use naoto_exchange.Queue.Fifo.{
  push_spec, pop_spec, IsFifoAt, try_push_lem, try_pop_lem, new_queue-IsFifo,
}

-- What the two sides ask of the queue, in the order in which it happens, and what they are told.
pub data Op {ℓ} (A : Type ℓ) : Type ℓ where
  push : A → Op A
  pop : Op A

pub data Answer {ℓ} (A : Type ℓ) : Type ℓ where
  pushed : Bool → Answer A
  popped : Option A → Answer A

unfoldable pub run {ℓ} : {A : Type ℓ} → ℕ → List (Op A) → SpscQueue A → List (Answer A)
run k [] q = []
run k (push x ∷ ops) q = let r = try_push k x q in pushed r.0 ∷ run k ops r.1
run k (pop ∷ ops) q = let r = try_pop k q in popped r.0 ∷ run k ops r.1

unfoldable pub run_spec {ℓ} : {A : Type ℓ} → ℕ → List (Op A) → List A → List (Answer A)
unfolding push_spec pop_spec
run_spec n [] xs = []
run_spec n (push x ∷ ops) xs = let r = push_spec n x xs in pushed r.0 ∷ run_spec n ops r.1
run_spec n (pop ∷ ops) xs = let r = pop_spec xs in popped r.0 ∷ run_spec n ops r.1

run_from {ℓ} :
    {A : Type ℓ} (k : ℕ) (small : k ≤ 63) (ops : List (Op A)) (q : SpscQueue A) (xs : List A)
    → IsFifoAt k q xs
    → run k ops q ≡ run_spec (2 ^ k) ops xs
unfolding run run_spec
run_from k small [] q xs h = refl
run_from k small (push x ∷ ops) q xs h =
    let r = try_push_lem k small x q xs h in
    rw (r.0, run_from k small ops (try_push k x q).1 (push_spec (2 ^ k) x xs).1 r.1) refl
run_from k small (pop ∷ ops) q xs h =
    let r = try_pop_lem k small q xs h in
    rw (r.0, run_from k small ops (try_pop k q).1 (pop_spec xs).1 r.1) refl

-- A new queue with 2 ^ k places, k ≤ 63, answers any sequence of pushes and pops as a list of at most
-- 2 ^ k elements does: a push fails exactly when the list is full, a pop takes the oldest element.
pub run_refines {ℓ} :
    {A : Type ℓ} (k : ℕ) (buffer : ℕ → A) (ops : List (Op A))
    → k ≤ 63
    → run k ops (new_queue buffer) ≡ run_spec (2 ^ k) ops []
run_refines k buffer ops small =
    run_from k small ops (new_queue buffer) [] (new_queue-IsFifo k buffer)
