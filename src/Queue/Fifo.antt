-- ===== src/Queue/Fifo.antt =====
-- One push and one pop, against a list of at most 2 ^ k elements.
use naoto_exchange.Common.{
  ℕ, suc, ◌+◌, ◌-◌, ◌%◌, ◌^◌, ◌≤◌, ◌<◌, List, [], ◌∷◌, ◌++◌, Bool, true, false, Option, none, some,
  ◌==◌, ◌≡◌, inl, inr, if◌then◌else◌, leb, length, length-append, refl, ap, ◌∙◌, arith, Bool-cases,
}
use naoto_exchange.Wire.{u64}
use naoto_exchange.Queue.{SpscQueue, new_queue, sub_u64, get_size, write, try_push, read, try_pop}
use naoto_exchange.Queue.Window.{Holds, Holds-append, index_lem, size_small}
use naoto_exchange.Queue.Counters.{sub_u64_lem, u64-suc, full_test, empty_test}

-- The counters are absolute positions modulo 2^64; a copy may lag behind its counter.
pub record Positions : Type 0 where
  pub head : ℕ
  pub tail : ℕ
  pub seen_head : ℕ
  pub seen_tail : ℕ

pub record IsFifo {ℓ} {A : Type ℓ} (k : ℕ) (q : SpscQueue A) (xs : List A) (p : Positions)
    : Type ℓ where
  pub head : q.head ≡ u64 p.head
  pub tail : q.tail ≡ u64 p.tail
  pub producer_head : q.producer_head ≡ u64 p.seen_head
  pub producer_tail : q.producer_tail ≡ u64 p.tail
  pub consumer_head : q.consumer_head ≡ u64 p.head
  pub consumer_tail : q.consumer_tail ≡ u64 p.seen_tail
  pub head_seen : p.seen_head ≤ p.head
  pub tail_seen : p.seen_tail ≤ p.tail
  pub unread : p.head ≤ p.seen_tail
  pub room : p.tail ≤ p.seen_head + 2 ^ k
  pub content : p.tail ≡ p.head + length xs
  pub holds : Holds q.buffer k p.head xs

-- The specification: a list of at most `n` elements.
unfoldable pub push_spec {ℓ} : {A : Type ℓ} → ℕ → A → List A → Bool × List A
push_spec n x xs = if leb n (length xs) then (false, xs) else (true, xs ++ x ∷ [])

unfoldable pub pop_spec {ℓ} : {A : Type ℓ} → List A → Option A × List A
pop_spec [] = (none, [])
pop_spec (x ∷ xs) = (some x, xs)

-- Some positions explain the queue.
unfoldable pub IsFifoAt {ℓ} : {A : Type ℓ} → ℕ → SpscQueue A → List A → Type ℓ
IsFifoAt k q xs = (p : Positions) × IsFifo k q xs p

-- The queue stands for the elements, in a buffer of at most 2 ^ 63 places.
module _ {ℓ} {A : Type ℓ} (k : ℕ) (small : k ≤ 63) where
  write-IsFifo :
      (q : SpscQueue A) (xs : List A) (x : A) (p : Positions)
      → IsFifo k q xs p
      → p.tail < p.seen_head + 2 ^ k
      → IsFifo k (write k x q) (xs ++ x ∷ []) (record p { tail = suc p.tail })
  unfolding write
  write-IsFifo q xs x p h r =
      let next = ap (λ t. u64 (t + 1)) h.producer_tail ∙ u64-suc p.tail in
      let place = ap (λ t. t % 2 ^ k) h.producer_tail ∙ index_lem k p.tail small in
      record {
        head = h.head;
        tail = next;
        producer_head = h.producer_head;
        producer_tail = next;
        consumer_head = h.consumer_head;
        consumer_tail = h.consumer_tail;
        head_seen = h.head_seen;
        tail_seen = omega (arith, h.tail_seen);
        unread = h.unread;
        room = omega (arith, r);
        content = omega (arith, h.content, length-append xs (x ∷ []));
        holds = rw place (
            Holds-append q.buffer k p.head p.tail xs x h.content (omega (arith, r, h.head_seen))
              h.holds);
      }

  read-IsFifo :
      (q : SpscQueue A) (xs : List A) (x : A) (p : Positions)
      → IsFifo k q (x ∷ xs) p
      → p.head < p.seen_tail
      → ((read k q).0 ≡ x) × IsFifo k (read k q).1 xs (record p { head = suc p.head })
  unfolding read
  read-IsFifo q xs x p h r =
      let next = ap (λ t. u64 (t + 1)) h.consumer_head ∙ u64-suc p.head in
      let place = ap (λ t. t % 2 ^ k) h.consumer_head ∙ index_lem k p.head small in
      (
        ap q.buffer place ∙ h.holds.0,
        record {
          head = next;
          tail = h.tail;
          producer_head = h.producer_head;
          producer_tail = h.producer_tail;
          consumer_head = next;
          consumer_tail = h.consumer_tail;
          head_seen = omega (arith, h.head_seen);
          tail_seen = h.tail_seen;
          unread = omega (arith, r);
          room = h.room;
          content = omega (arith, h.content);
          holds = h.holds.1;
        },
      )

  fresh_head :
      (q : SpscQueue A) (xs : List A) (p : Positions)
      → IsFifo k q xs p
      → IsFifo k (record q { producer_head = q.head }) xs (record p { seen_head = p.head })
  fresh_head q xs p h = record {
    head = h.head;
    tail = h.tail;
    producer_head = h.head;
    producer_tail = h.producer_tail;
    consumer_head = h.consumer_head;
    consumer_tail = h.consumer_tail;
    head_seen = omega arith;
    tail_seen = h.tail_seen;
    unread = h.unread;
    room = omega (arith, h.room, h.head_seen);
    content = h.content;
    holds = h.holds;
  }

  fresh_tail :
      (q : SpscQueue A) (xs : List A) (p : Positions)
      → IsFifo k q xs p
      → IsFifo k (record q { consumer_tail = q.tail }) xs (record p { seen_tail = p.tail })
  fresh_tail q xs p h = record {
    head = h.head;
    tail = h.tail;
    producer_head = h.producer_head;
    producer_tail = h.producer_tail;
    consumer_head = h.consumer_head;
    consumer_tail = h.tail;
    head_seen = h.head_seen;
    tail_seen = omega arith;
    unread = omega (arith, h.content);
    room = h.room;
    content = h.content;
    holds = h.holds;
  }

  -- A push refines that of the specification.
  pub try_push_lem :
      (x : A) (q : SpscQueue A) (xs : List A)
      → IsFifoAt k q xs
      → let r = try_push k x q in let s = push_spec (2 ^ k) x xs in (r.0 ≡ s.0) × IsFifoAt k r.1 s.1
  unfolding IsFifoAt try_push push_spec
  try_push_lem x q xs (p, h) =
      let le = size_small k small in
      let e1 : leb (2 ^ k) (sub_u64 q.producer_tail q.producer_head)
          ≡ leb (2 ^ k) (p.tail - p.seen_head) =
        rw (h.producer_tail, h.producer_head)
          (full_test k p.seen_head p.tail le (omega arith) h.room) in
      let e2 : leb (2 ^ k) (sub_u64 q.producer_tail q.head) ≡ leb (2 ^ k) (length xs) =
        rw (h.producer_tail, h.head)
          (full_test k p.head p.tail le (omega arith) (omega arith)
            ∙ ap (leb (2 ^ k)) (omega (arith, h.content))) in
      elim (Bool-cases (leb (2 ^ k) (p.tail - p.seen_head))) [
        | inr t ↦
            let u : leb (2 ^ k) (length xs) ≡ false = ground (arith, h.content, h.head_seen) in
            rw (e1 ∙ t, try_push, u, push_spec)
              (refl, (_, write-IsFifo q xs x p h (ground (arith, h.head_seen))))
        | inl t ↦ elim (Bool-cases (leb (2 ^ k) (length xs))) [
          | inl u ↦ rw (e1 ∙ t, try_push, e2 ∙ u, u, push_spec) (refl, (_, fresh_head q xs p h))
          | inr u ↦
              rw (e1 ∙ t, try_push, e2 ∙ u, u, push_spec)
                (refl, (_, write-IsFifo _ xs x _ (fresh_head q xs p h) (ground (arith, h.content))))
        ]
      ]

  read_first :
      (q : SpscQueue A) (xs : List A) (p : Positions)
      → IsFifo k q xs p
      → p.head < p.seen_tail
      → let r = read k q in let s = pop_spec xs in (some r.0 ≡ s.0) × IsFifoAt k r.1 s.1
  unfolding IsFifoAt pop_spec
  read_first q [] p h r = absurd (omega (arith, h.content, h.tail_seen, r))
  read_first q (x ∷ xs) p h r = let a = read-IsFifo q xs x p h r in (ap some a.0, (_, a.1))

  nothing_left :
      (q : SpscQueue A) (xs : List A) (p : Positions)
      → IsFifo k q xs p
      → p.tail ≡ p.head
      → (none ≡ (pop_spec xs).0) × IsFifoAt k q (pop_spec xs).1
  unfolding IsFifoAt pop_spec
  nothing_left q [] p h e = (refl, (p, h))
  nothing_left q (x ∷ xs) p h e = absurd (omega (arith, h.content, e))

  -- A pop refines that of the specification.
  pub try_pop_lem :
      (q : SpscQueue A) (xs : List A)
      → IsFifoAt k q xs
      → let r = try_pop k q in let s = pop_spec xs in (r.0 ≡ s.0) × IsFifoAt k r.1 s.1
  unfolding IsFifoAt try_pop
  try_pop_lem q xs (p, h) =
      let le = size_small k small in
      let e1 : (q.consumer_tail == q.consumer_head) ≡ (p.seen_tail == p.head) =
        rw (h.consumer_tail, h.consumer_head)
          (empty_test p.head p.seen_tail h.unread (omega arith)) in
      let e2 : (q.tail == q.consumer_head) ≡ (p.tail == p.head) =
        rw (h.tail, h.consumer_head) (empty_test p.head p.tail (omega arith) (omega arith)) in
      elim (Bool-cases (p.seen_tail == p.head)) [
        | inr t ↦ rw (e1 ∙ t, try_pop) (read_first q xs p h (ground (arith, h.unread)))
        | inl t ↦ elim (Bool-cases (p.tail == p.head)) [
          | inl u ↦
              rw (e1 ∙ t, try_pop, e2 ∙ u)
                (nothing_left _ xs _ (fresh_tail q xs p h) (ground arith))
          | inr u ↦
              rw (e1 ∙ t, try_pop, e2 ∙ u)
                (read_first _ xs _ (fresh_tail q xs p h) (ground (arith, h.content)))
        ]
      ]

  -- The size that both handles report.
  pub get_size_lem : (q : SpscQueue A) (xs : List A) → IsFifoAt k q xs → get_size q ≡ length xs
  unfolding IsFifoAt get_size
  get_size_lem q xs (p, h) =
      let le = size_small k small in
      rw (h.tail, h.head)
        (sub_u64_lem p.head p.tail (omega arith) (omega arith) ∙ omega (arith, h.content))

pub new_queue-IsFifo {ℓ} : {A : Type ℓ} (k : ℕ) (buffer : ℕ → A) → IsFifoAt k (new_queue buffer) []
unfolding IsFifoAt
new_queue-IsFifo k buffer = (
  record { head = 0; tail = 0; seen_head = 0; seen_tail = 0 },
  record {
    head = refl;
    tail = refl;
    producer_head = refl;
    producer_tail = refl;
    consumer_head = refl;
    consumer_tail = refl;
    head_seen = omega arith;
    tail_seen = omega arith;
    unread = omega arith;
    room = omega arith;
    content = omega arith;
    holds = tt;
  },
)
