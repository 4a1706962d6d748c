-- ===== src/Gateway/Server/Requests.antt =====
-- What becomes of the objects of the request pool when a client's first message comes.
use naoto_exchange.Common.{
  ℕ, ◌^◌, ◌<◌, ◌≤◌, List, [], ◌∷◌, ◌++◌, true, false, Option, none, some, ◌≡◌, ◌≢◌, ◌⊎◌, inl, inr,
  refl, sym, ap, ◌∙◌, subst, arith, length, leb, if◌then◌else◌, update, Bool-cases,
}
use naoto_exchange.Wire.{RoutedAuthRequest}
use naoto_exchange.Queue.{try_push}
use naoto_exchange.Queue.Fifo.{IsFifoAt, push_spec, try_push_lem}
use naoto_exchange.Pool.Owned.{count, remove}
use naoto_exchange.Mempool.{StoragePool, acquire, local_release}
use naoto_exchange.Mempool.Operations.{IsUsed, acquired, released_locally, AcquiredFrom}
use naoto_exchange.Mempool.Owned.{acquire_lem}
use naoto_exchange.Gateway.Server.{
  ClientAuthRequest, Server, routed, route_request, first_message_handle,
}

-- The request is passed on in an object that no one held, or, where the queue is full, given up and the object
-- is free again.
pub record Requested (pool queue : ℕ) (held xs : List ℕ) (r : RoutedAuthRequest) (s t : Server)
    : Type 0 where
  pub object : ℕ
  pub unheld : count object held ≡ 0
  pub result :
      ((length xs < 2 ^ queue)
        × IsUsed pool t.requests (object ∷ held)
        × IsFifoAt queue t.outgoing_requests (xs ++ object ∷ [])
        × (t.stored object ≡ r))
      ⊎ ((2 ^ queue ≤ length xs)
          × IsUsed pool t.requests held
          × IsFifoAt queue t.outgoing_requests xs)
  pub others : (b : ℕ) → b ≢ object → t.stored b ≡ s.stored b

remove_same : (a : ℕ) (held : List ℕ) → remove a (a ∷ held) ≡ held
unfolding remove
remove_same a held = ground arith

count_same : (a : ℕ) (held : List ℕ) → 0 < count a (a ∷ held)
unfolding count
count_same a held = ground arith

update_same : (a : ℕ) (r : RoutedAuthRequest) (f : ℕ → RoutedAuthRequest) → update a r f a ≡ r
unfolding update
update_same a r f = ground arith

update_other :
    (a b : ℕ) (r : RoutedAuthRequest) (f : ℕ → RoutedAuthRequest) → b ≢ a → update a r f b ≡ f b
unfolding update
update_other a b r f h = ground arith

push_full : (n a : ℕ) (xs : List ℕ) → leb n (length xs) ≡ true → push_spec n a xs ≡ (false, xs)
unfolding push_spec
push_full n a xs e = rw (push_spec, e) refl

push_open :
    (n a : ℕ) (xs : List ℕ) → leb n (length xs) ≡ false → push_spec n a xs ≡ (true, xs ++ a ∷ [])
unfolding push_spec
push_open n a xs e = rw (push_spec, e) refl

route_request_lem :
    (pool queue : ℕ) (m : ClientAuthRequest) (fd : ℕ) (s : Server) (held xs : List ℕ) (a : ℕ)
    (p : StoragePool)
    → queue ≤ 63
    → IsUsed pool p (a ∷ held)
    → count a held ≡ 0
    → IsFifoAt queue s.outgoing_requests xs
    → (t : Server) × (route_request pool queue m fd s (some a, p) ≡ some t)
      × Requested pool queue held xs (routed s m fd) s t
unfolding route_request
route_request_lem pool queue m fd s held xs a p small used new fifo =
    let (done, after) = try_push_lem queue small a s.outgoing_requests xs fifo in
    let others = λ (b : ℕ) (h : b ≢ a). update_other a b (routed s m fd) s.stored h in
    let freed =
      subst (IsUsed pool (local_release pool a p).1) (remove_same a held)
        (released_locally p (a ∷ held) a used (count_same a held)) in
    elim (Bool-cases (leb (2 ^ queue) (length xs))) [
      | inl y ↦
          let full = push_full (2 ^ queue) a xs y in
          let failed = done ∙ ap (λ r. r.0) full in
          (
            _,
            refl,
            record {
              object = a;
              unheld = new;
              result = inr (
                ground (arith, y),
                subst (λ b. IsUsed pool (if b then p else (local_release pool a p).1) held)
                    (sym failed) freed,
                subst (IsFifoAt queue (try_push queue a s.outgoing_requests).1) (ap (λ r. r.1) full)
                    after,
              );
              others = others;
            },
          )
      | inr y ↦
          let room = push_open (2 ^ queue) a xs y in
          let passed = done ∙ ap (λ r. r.0) room in
          (
            _,
            refl,
            record {
              object = a;
              unheld = new;
              result = inl (
                ground (arith, y),
                subst (λ b. IsUsed pool (if b then p else (local_release pool a p).1) (a ∷ held))
                    (sym passed) used,
                subst (IsFifoAt queue (try_push queue a s.outgoing_requests).1) (ap (λ r. r.1) room)
                    after,
                update_same a (routed s m fd) s.stored,
              );
              others = others;
            },
          )
    ]

answered :
    (pool queue : ℕ) (m : ClientAuthRequest) (fd : ℕ) (s : Server) (held xs : List ℕ)
    (r : Option ℕ × StoragePool)
    → queue ≤ 63
    → IsFifoAt queue s.outgoing_requests xs
    → AcquiredFrom pool held r
    → ((a : ℕ) → r.0 ≡ some a → IsUsed pool r.1 (a ∷ held))
    → ((length held ≡ 2 ^ pool) × (route_request pool queue m fd s r ≡ none))
      ⊎ ((t : Server) × (route_request pool queue m fd s r ≡ some t)
          × Requested pool queue held xs (routed s m fd) s t)
unfolding route_request
answered pool queue m fd s held xs (none, p) small fifo (owned, all) used = inl (all, refl)
answered pool queue m fd s held xs (some a, p) small fifo (owned, new) used =
    inr (route_request_lem pool queue m fd s held xs a p small (used a refl) new fifo)

-- Where the request pool is used as it should be, with at most 2 ^ 63 objects and places in the queue, the first
-- message of a client is written in an object that no one held. If the queue has room, that object is passed
-- on behind the others, with the client's message, its descriptor and the gateway in it; if not, it is
-- free again, and the request is lost. No other object is touched. But when all objects are held, the
-- server writes through a null pointer.
pub first_message_handle_lem :
    (pool queue : ℕ) (m : ClientAuthRequest) (fd : ℕ) (s : Server) (held xs : List ℕ)
    → pool ≤ 63
    → queue ≤ 63
    → IsUsed pool s.requests held
    → IsFifoAt queue s.outgoing_requests xs
    → ((length held ≡ 2 ^ pool) × (first_message_handle pool queue m fd s ≡ none))
      ⊎ ((t : Server) × (first_message_handle pool queue m fd s ≡ some t)
          × Requested pool queue held xs (routed s m fd) s t)
unfolding first_message_handle
first_message_handle_lem pool queue m fd s held xs low small used fifo =
    answered pool queue m fd s held xs (acquire pool s.requests) small fifo
      (acquire_lem pool low s.requests held used) (λ a e. acquired s.requests held a used e)
