-- ===== src/Queue/Tests.antt =====
-- A queue of two places.
use naoto_exchange.Common.{ℕ, List, [], ◌∷◌, true, false, none, some, update, ◌≡◌, refl, arith}
use naoto_exchange.Queue.{SpscQueue, new_queue, sub_u64, write, try_push, read, try_pop}
use naoto_exchange.Queue.Runs.{Op, push, pop, Answer, pushed, popped, run, run_spec, run_refines}

abbrev ops : List (Op ℕ)
ops = push 5 ∷ push 6 ∷ push 7 ∷ pop ∷ push 8 ∷ pop ∷ pop ∷ pop ∷ []

abbrev answers : List (Answer ℕ)
answers =
    pushed true
    ∷ pushed true
    ∷ pushed false
    ∷ popped (some 5)
    ∷ pushed true
    ∷ popped (some 6)
    ∷ popped (some 8)
    ∷ popped none
    ∷ []

-- The third push finds the queue full, the last pop finds it empty.
run-ops : run 1 ops (new_queue (λ i. 0)) ≡ answers
unfolding run try_push try_pop write read sub_u64 update
run-ops = refl

run_refines_example : run 1 ops (new_queue (λ i. 0)) ≡ run_spec 2 ops []
run_refines_example = run_refines 1 (λ i. 0) ops (omega arith)

abbrev empty_queue : SpscQueue ℕ
empty_queue = new_queue (λ i. 0)
