-- ===== src/Epoll/Framing.antt =====
-- The batches are the stream of bytes, cut into whole messages.
use native.Mathlib.Nat.{mod-eq_of_lt, mul-add, mul-mod_right, mul-add-mod_self_left, mul-one}
use naoto_exchange.Common.{
  ℕ, suc, ◌+◌, ◌*◌, ◌%◌, ◌<◌, List, [], ◌∷◌, ◌++◌, true, false, ◌≡◌, refl, ap, sym, ◌∙◌, length,
  length-append, append_assoc, append-nil, arith, All, subst,
}
use naoto_exchange.Epoll.{
  Batch, Client, Turn, received, interrupted, closed, would_block, failed, pool_drained,
  remove_client, receive, read_messages,
}
use naoto_exchange.Epoll.Turns.{
  joined, stream, AreCut, length-receive, empty_of, IsWhole, IsFramed, receive-IsFramed,
  connected-receive, removed-IsFramed, ended,
}

-- When no call of `recv` ends within a message behind a whole one, then however else it cuts the stream,
-- and however the loop ends: the batches of a connected client are whole
-- messages, and together with less than a message that is left they are the bytes that were received, in
-- their order. What is left is in the buffer as long as the client is connected.
pub read_messages-IsFramed :
    (size : ℕ) (ts : List Turn) (bytes : List ℕ) (c : Client)
    → 0 < size
    → c.connected ≡ true
    → AreCut size (length c.buffer) ts
    → IsFramed size bytes c
    → IsFramed size (bytes ++ stream ts) (read_messages size ts c)
unfolding read_messages AreCut
read_messages-IsFramed size [] bytes c p k t h = ended size bytes c h
read_messages-IsFramed size (received more enqueued behind ∷ ts) bytes c p k (cut, t) h =
    let next = receive size more enqueued behind c in
    subst (λ b. IsFramed size b (read_messages size ts next)) (append_assoc bytes more (stream ts))
      (read_messages-IsFramed size ts (bytes ++ more) next p
        (connected-receive size more enqueued behind c ∙ k)
        (subst (λ n. AreCut size n ts) (sym (length-receive size more enqueued behind c p cut)) t)
        (receive-IsFramed size bytes more enqueued behind c p k cut h))
read_messages-IsFramed size (interrupted ∷ ts) bytes c p k t h =
    read_messages-IsFramed size ts bytes c p k t h
read_messages-IsFramed size (closed true ∷ ts) bytes c p k t h =
    read_messages-IsFramed size ts bytes c p k t h
read_messages-IsFramed size (closed false ∷ ts) bytes c p k t h =
    ended size bytes (remove_client c) (removed-IsFramed size bytes c h)
read_messages-IsFramed size (would_block ∷ ts) bytes c p k t h = ended size bytes c h
read_messages-IsFramed size (failed ∷ ts) bytes c p k t h =
    ended size bytes (remove_client c) (removed-IsFramed size bytes c h)
read_messages-IsFramed size (pool_drained true ∷ ts) bytes c p k t h =
    ended size bytes (remove_client c) (removed-IsFramed size bytes c h)
read_messages-IsFramed size (pool_drained false ∷ ts) bytes c p k t h = ended size bytes c h

abbrev pub flatten : List (List ℕ) → List ℕ
flatten [] = []
flatten (m ∷ ms) = m ++ flatten ms

size_more : (size n : ℕ) → size + size * n ≡ size * suc n
size_more size n =
    ap (λ m. m + size * n) (sym (mul-one size))
    ∙ sym (mul-add size 1 n)
    ∙ ap (λ m. size * m) (omega arith)

length-flatten :
    (size : ℕ) (ms : List (List ℕ))
    → All (λ m. length m ≡ size) ms
    → length (flatten ms) ≡ size * length ms
length-flatten size [] h = omega arith
length-flatten size (m ∷ ms) h =
    length-append m (flatten ms)
    ∙ ap (λ n. n + length (flatten ms)) h.0
    ∙ ap (λ n. size + n) (length-flatten size ms h.1)
    ∙ size_more size (length ms)

length-joined :
    (size : ℕ) (bs : List Batch) → All (IsWhole size) bs → (n : ℕ) × (length (joined bs) ≡ size * n)
length-joined size [] h = (0, omega arith)
length-joined size (b ∷ bs) ((n, p, e), h) =
    let r = length-joined size bs h in
    (
      n + r.0,
      length-append b.content (joined bs)
          ∙ ap (λ m. m + length (joined bs)) e
          ∙ ap (λ m. size * n + m) r.1
          ∙ sym (mul-add size n r.0),
    )

-- Less than a message cannot make up the difference of whole messages.
nothing_over : (size n m r : ℕ) → r < size → size * n + r ≡ size * m → r ≡ 0
nothing_over size n m r l e =
    sym (mod-eq_of_lt l)
    ∙ sym (mul-add-mod_self_left size n r)
    ∙ ap (λ k. k % size) e
    ∙ mul-mod_right size m

abbrev pub fresh : Client
fresh = record { buffer = []; connected = true; batches = [] }

-- When a new client sends whole messages, and no call of `recv` ends within a message behind a whole one,
-- then however else it cuts them, the batches hold these messages in their order and nothing is left over.
pub messages_arrive :
    (size : ℕ) (ms : List (List ℕ)) (ts : List Turn)
    → 0 < size
    → All (λ m. length m ≡ size) ms
    → AreCut size 0 ts
    → stream ts ≡ flatten ms
    → let c = read_messages size ts fresh in
      (joined c.batches ≡ flatten ms) × (c.connected ≡ true → c.buffer ≡ [])
messages_arrive size ms ts p h t e =
    let start : IsFramed size [] fresh = record {
      rest = [];
      whole = tt;
      bytes_kept = refl;
      small = p;
      kept = λ k. refl;
    } in
    let f = read_messages-IsFramed size ts [] fresh p refl t start in
    let j = length-joined size _ f.whole in
    let all = f.bytes_kept ∙ e in
    let lengths =
      sym (length-append (joined (read_messages size ts fresh).batches) f.rest)
      ∙ ap length all
      ∙ length-flatten size ms h in
    let none : f.rest ≡ [] = empty_of f.rest (
      nothing_over size j.0 (length ms) (length f.rest) f.small
        (ap (λ n. n + length f.rest) (sym j.1) ∙ lengths)) in
    (
      sym (append-nil _)
          ∙ ap (λ r. joined (read_messages size ts fresh).batches ++ r) (sym none)
          ∙ all,
      λ k. f.kept k ∙ none,
    )
