-- ===== src/Epoll/Turns.antt =====
-- What the turns of the loop do to a client's bytes.
use native.Mathlib.Nat.{mod-lt, mod-add-div}
use naoto_exchange.Common.{
  ℕ, ◌+◌, ◌*◌, ◌/◌, ◌%◌, ◌-◌, zero, suc, ◌<◌, ◌≤◌, List, [], ◌∷◌, ◌++◌, Bool, true, false, ltb, ◌≡◌,
  ◌≢◌, refl, ap, sym, ◌∙◌, inl, inr, length, take, drop, take-drop, length-take, length-take_le,
  length-drop, append_assoc, length-append, ◌⊎◌, append-nil, arith, Bool-cases, All, All-append,
  subst,
}
use naoto_exchange.Epoll.{
  add_bytes, Batch, Client, Turn, received, interrupted, closed, remove_client, batched, receive,
  kept_bytes,
}

-- The bytes of the batches, one after the other.
abbrev pub joined : List Batch → List ℕ
joined [] = []
joined (b ∷ bs) = b.content ++ joined bs

-- The bytes that the turns receive until the loop ends.
abbrev pub stream : List Turn → List ℕ
stream [] = []
stream (received bytes enqueued behind ∷ ts) = bytes ++ stream ts
stream (interrupted ∷ ts) = stream ts
stream (closed true ∷ ts) = stream ts
stream (_ ∷ ts) = []

-- A batch holds messages, one at least, and nothing else.
abbrev pub IsWhole : ℕ → Batch → Type 0
IsWhole size b = (n : ℕ) × (0 < n) × (length b.content ≡ size * n)

-- The client's bytes, as they stand in its batches and in less than a message that is left, which is
-- in its buffer as long as it is connected.
pub record IsFramed (size : ℕ) (bytes : List ℕ) (c : Client) : Type 0 where
  pub rest : List ℕ
  pub whole : All (IsWhole size) c.batches
  pub bytes_kept : joined c.batches ++ rest ≡ bytes
  pub small : length rest < size
  pub kept : c.connected ≡ true → c.buffer ≡ rest

pub positive : (n : ℕ) → ltb 0 n ≡ true → 0 < n
positive n h = ground arith

pub none_whole : (size n : ℕ) → ltb 0 n ≡ false → size * n ≡ 0
none_whole size n h = let e : n ≡ 0 = ground arith in rw e (omega arith)

pub joined-append : (xs ys : List Batch) → joined (xs ++ ys) ≡ joined xs ++ joined ys
joined-append [] ys = refl
joined-append (x ∷ xs) ys =
    ap (λ r. x.content ++ r) (joined-append xs ys)
    ∙ sym (append_assoc x.content (joined xs) (joined ys))

-- What is over after the whole messages.
pub over : ℕ → List ℕ → List ℕ
over size total = drop (size * (length total / size)) total

pub length-over :
    (size : ℕ) (total : List ℕ) → 0 < size → length (over size total) ≡ length total % size
unfolding over
length-over size total h =
    length-drop (size * (length total / size)) total
    ∙ omega (arith, mod-add-div (length total) size)

pub fits : (size : ℕ) (bytes : List ℕ) → length bytes < size → (add_bytes size bytes []).1 ≡ bytes
unfolding add_bytes
fits size bytes h =
    let e : ltb size (length {A = ℕ} [] + length bytes) ≡ false = ground (arith, h) in rw e refl

pub batched-joined :
    (size n : ℕ) (enqueued : Bool) (total : List ℕ) (bs : List Batch)
    → joined (batched n enqueued (take (size * n) total) bs) ++ drop (size * n) total
      ≡ joined bs ++ total
batched-joined size n enqueued total bs = elim (Bool-cases (ltb 0 n)) [
  | inl t ↦
      rw
        (
          t,
          joined-append bs (record { content = take (size * n) total; enqueued = enqueued } ∷ []),
          append-nil (take (size * n) total),
          append_assoc (joined bs) (take (size * n) total) (drop (size * n) total),
          take-drop (size * n) total,
        )
        refl
  | inr t ↦ let e : size * n ≡ 0 = none_whole size n t in rw (t, e) refl
]

pub batched-IsWhole :
    (size n : ℕ) (enqueued : Bool) (total : List ℕ) (bs : List Batch)
    → size * n ≤ length total
    → All (IsWhole size) bs
    → All (IsWhole size) (batched n enqueued (take (size * n) total) bs)
batched-IsWhole size n enqueued total bs l h = elim (Bool-cases (ltb 0 n)) [
  | inl t ↦ rw t (
      All-append (IsWhole size) bs
        (record { content = take (size * n) total; enqueued = enqueued } ∷ []) h
        ((n, positive n t, length-take (size * n) total l), tt))
  | inr t ↦ rw t h
]

pub empty_of : (xs : List ℕ) → length xs ≡ 0 → xs ≡ []
empty_of [] h = refl
empty_of (x ∷ xs) h = absurd (omega (arith, h))

take_front : (xs ys : List ℕ) → take (length xs) (xs ++ ys) ≡ xs
take_front [] ys = refl
take_front (x ∷ xs) ys = ap (λ r. x ∷ r) (take_front xs ys)

-- Bytes end with a message, or hold none whole.
abbrev pub IsCut : ℕ → ℕ → Type 0
IsCut size k = (k / size ≡ 0) ⊎ (k % size ≡ 0)

-- No call of `recv` ends within a message behind a whole one, when `k` bytes were there before.
unfoldable pub AreCut : ℕ → ℕ → List Turn → Type 0
AreCut size k [] = 0 < 1
AreCut size k (received bytes enqueued behind ∷ ts) =
    IsCut size (k + length bytes) × AreCut size ((k + length bytes) % size) ts
AreCut size k (interrupted ∷ ts) = AreCut size k ts
AreCut size k (closed true ∷ ts) = AreCut size k ts
AreCut size k (_ ∷ ts) = 0 < 1

-- Then the bytes that are kept are those behind the whole messages.
kept_bytes-over :
    (size : ℕ) (total behind : List ℕ)
    → 0 < size
    → IsCut size (length total)
    → kept_bytes size total behind ≡ over size total
unfolding kept_bytes over
kept_bytes-over size total behind p (inl z) =
    let none : size * (length total / size) ≡ 0 = ap (λ n. size * n) z ∙ omega arith in
    let twice : size * (size * (length total / size)) ≡ 0 = ap (λ n. size * n) none ∙ omega arith in
    let all : length total % size ≡ length total =
      omega (arith, mod-add-div (length total) size, none) in
    ap (λ m. take (length total % size) (drop m (total ++ behind))) twice
    ∙ ap (λ m. take m (total ++ behind)) all
    ∙ take_front total behind
    ∙ sym (ap (λ m. drop m total) none)
kept_bytes-over size total behind p (inr z) =
    ap (λ m. take m (drop (size * (size * (length total / size))) (total ++ behind))) z
    ∙ sym (empty_of (over size total) (length-over size total p ∙ z))

pub receive_rest :
    (size : ℕ) (more : List ℕ) (enqueued : Bool) (behind : List ℕ) (c : Client)
    → 0 < size
    → IsCut size (length c.buffer + length more)
    → (receive size more enqueued behind c).buffer ≡ over size (c.buffer ++ more)
unfolding receive
receive_rest size more enqueued behind c p cut =
    let total = c.buffer ++ more in
    let cut' = subst (IsCut size) (sym (length-append c.buffer more)) cut in
    ap (λ r. (add_bytes size r []).1) (kept_bytes-over size total behind p cut')
    ∙ fits size (over size total) (omega (arith, length-over size total p, mod-lt (length total) p))

drop_front : (m : ℕ) (xs ys : List ℕ) → length xs ≤ m → drop m (xs ++ ys) ≡ drop (m - length xs) ys
drop_front m [] ys h = let e : m ≡ m - 0 = omega arith in ap (λ k. drop k ys) e
drop_front zero (x ∷ xs) ys h = absurd (omega (arith, h))
drop_front (suc m) (x ∷ xs) ys h =
    let e : m - length xs ≡ suc m - suc (length xs) = omega arith in
    drop_front m xs ys (omega (arith, h)) ∙ ap (λ k. drop k ys) e

one_whole : (size n r : ℕ) → r < size → size ≤ r + size * n → 0 < n
one_whole size zero r h k = absurd (omega (arith, h, k))
one_whole size (suc n) r h k = omega arith

far_behind : (size n r : ℕ) → 2 ≤ size → 0 < n → r < size → size * n + r ≤ size * (size * n)
far_behind size n r a b c =
    let more : size * 1 ≤ size * n = grind arith in
    let twice : 2 * (size * n) ≤ size * (size * n) = grind arith in omega (arith, more, twice, c)

-- When messages of two bytes at least are received and the last is not whole, the bytes of that one
-- are lost: what is kept for it are bytes that stood in memory behind all that was received.
pub torn_message :
    (size : ℕ) (bytes : List ℕ) (enqueued : Bool) (behind : List ℕ) (c : Client)
    → 2 ≤ size
    → size ≤ length (c.buffer ++ bytes)
    → let total = c.buffer ++ bytes in
      (receive size bytes enqueued behind c).buffer
      ≡ take
          (length total % size)
          (drop (size * (size * (length total / size)) - length total) behind)
unfolding receive kept_bytes
torn_message size bytes enqueued behind c a b =
    let total = c.buffer ++ bytes in
    let n = length total / size in
    let r = length total % size in
    let whole = mod-add-div (length total) size in
    let small : r < size = mod-lt (length total) (omega (arith, a)) in
    let some_whole : 0 < n = one_whole size n r small (subst (λ m. size ≤ m) (sym whole) b) in
    let far : length total ≤ size * (size * n) =
      omega (arith, far_behind size n r a some_whole small, whole) in
    let rest = take r (drop (size * (size * n)) (total ++ behind)) in
    fits size rest
      (omega (arith, length-take_le r (drop (size * (size * n)) (total ++ behind)), small))
    ∙ ap (take r) (drop_front (size * (size * n)) total behind far)

pub length-receive :
    (size : ℕ) (more : List ℕ) (enqueued : Bool) (behind : List ℕ) (c : Client)
    → 0 < size
    → IsCut size (length c.buffer + length more)
    → length (receive size more enqueued behind c).buffer ≡ (length c.buffer + length more) % size
length-receive size more enqueued behind c p cut =
    ap length (receive_rest size more enqueued behind c p cut)
    ∙ length-over size (c.buffer ++ more) p
    ∙ ap (λ n. n % size) (length-append c.buffer more)

-- A turn that receives bytes adds them to the client's.
pub receive-IsFramed :
    (size : ℕ) (bytes more : List ℕ) (enqueued : Bool) (behind : List ℕ) (c : Client)
    → 0 < size
    → c.connected ≡ true
    → IsCut size (length c.buffer + length more)
    → IsFramed size bytes c
    → IsFramed size (bytes ++ more) (receive size more enqueued behind c)
unfolding receive over
receive-IsFramed size bytes more enqueued behind c p k cut h =
    let total = c.buffer ++ more in
    let n = length total / size in
    let left : length (over size total) < size =
      omega (arith, length-over size total p, mod-lt (length total) p) in
    record {
      rest = over size total;
      whole =
          batched-IsWhole size n enqueued total c.batches
            (omega (arith, mod-add-div (length total) size)) h.whole;
      bytes_kept =
          batched-joined size n enqueued total c.batches
          ∙ sym (append_assoc (joined c.batches) c.buffer more)
          ∙ ap (λ b. (joined c.batches ++ b) ++ more) (h.kept k)
          ∙ ap (λ b. b ++ more) h.bytes_kept;
      small = left;
      kept = λ e. receive_rest size more enqueued behind c p cut;
    }

pub no_truth : false ≢ true
no_truth e = ground arith

pub connected-receive :
    (size : ℕ) (more : List ℕ) (enqueued : Bool) (behind : List ℕ) (c : Client)
    → (receive size more enqueued behind c).connected ≡ c.connected
unfolding receive
connected-receive size more enqueued behind c = refl

pub removed-IsFramed :
    (size : ℕ) (bytes : List ℕ) (c : Client)
    → IsFramed size bytes c
    → IsFramed size bytes (remove_client c)
removed-IsFramed size bytes c h = record {
  rest = h.rest;
  whole = h.whole;
  bytes_kept = h.bytes_kept;
  small = h.small;
  kept = λ e. absurd (no_truth e);
}

pub ended :
    (size : ℕ) (bytes : List ℕ) (c : Client) → IsFramed size bytes c → IsFramed size (bytes ++ []) c
ended size bytes c h = subst (λ b. IsFramed size b c) (sym (append-nil bytes)) h
