-- ===== src/Gateway/Router/Confirms.antt =====
-- What a batch brings to the client and to the engines.
use naoto_exchange.Common.{
  ℕ, ◌+◌, List, [], ◌∷◌, ◌++◌, Bool, true, false, ◌==◌, ◌≡◌, refl, ap, sym, if◌then◌else◌, ◌∙◌, inl,
  inr, arith, Bool-cases, ◌≢◌, append_assoc, append-nil, subst,
}
use naoto_exchange.Wire.{Order, u32, u64}
use naoto_exchange.Gateway.Risk.{
  OrderConfirmationStatus, accepted, technical_failure, Local, check_order_risk,
}
use naoto_exchange.Gateway.Router.Charges.{local-route}
use naoto_exchange.Gateway.Router.Frame.{leaves-answer_order}
use naoto_exchange.Gateway.Router.{
  OrderConfirmation, Router, Turn, Sending, complete, stopped, Resend, send_loop, after_send,
  send_order, check_risk, is_connected, confirm, confirm_sent, after_drained, forward, answer_order,
  check_turn, counted, next_order_id, route, consume_order,
}

abbrev pub confirmation : Turn → ℕ → OrderConfirmationStatus → OrderConfirmation
confirmation t id status = record {
  order_id = id;
  client_order_id = t.order.client_order_id;
  status = status;
}

abbrev pub sent_order : Turn → ℕ → Order
sent_order t id = record (t.order) { order_id = id }

-- The verdict on an order, and the router's entries after it, by the check of the risk alone.
unfoldable pub verdict : ℕ → Turn → Local → OrderConfirmationStatus × Local
unfolding is_connected check_order_risk
verdict auth t l =
    if is_connected t then check_order_risk t.client l t.order auth else (technical_failure, l)

-- What one order brings: on any verdict but `accepted`, a refusal to the client with that verdict and
-- nothing to the engine; on `accepted`, the order to its engine, with a confirmation if that is still the
-- same engine afterwards, or, where the order is kept for later or lost, nothing.
pub data Answer (id : ℕ) (t : Turn)
    : OrderConfirmationStatus → List OrderConfirmation → List Order → Type 0 where
  refused :
      (status : OrderConfirmationStatus)
      → status ≢ accepted
      → Answer id t status (confirmation t id status ∷ []) []
  confirmed :
      t.engine_after ≡ t.engine
      → Answer id t accepted (confirmation t id accepted ∷ []) (sent_order t id ∷ [])
  unconfirmed : t.engine_after ≢ t.engine → Answer id t accepted [] (sent_order t id ∷ [])
  unsent : Answer id t accepted [] []

-- What a batch brings, with consecutive ids modulo 2^32, from the router's entries on.
pub data Answers (auth : ℕ)
    : Local → ℕ → List Turn → List OrderConfirmation → List Order → Type 0 where
  none_left : (l : Local) (id : ℕ) → Answers auth l id [] [] []
  turn :
      (l : Local) (id : ℕ) (t : Turn) (ts : List Turn) (cs cs' : List OrderConfirmation)
      (os os' : List Order)
      → Answer id t ((verdict auth t l).0) cs os
      → Answers auth ((verdict auth t l).1) (u32 (id + 1)) ts cs' os'
      → Answers auth l id (t ∷ ts) (cs ++ cs') (os ++ os')

-- What a router has pushed and sent since another.
pub record Brings (g g' : Router) (cs : List OrderConfirmation) (os : List Order) : Type 0 where
  pub confirmations : g'.confirmations ≡ g.confirmations ++ cs
  pub sent : g'.sent_orders ≡ g.sent_orders ++ os

abbrev BringsAnswer : ℕ → Turn → OrderConfirmationStatus → Router → Router → Type 0
BringsAnswer id t v g g' =
    (cs : List OrderConfirmation) × (os : List Order) × Answer id t v cs os × Brings g g' cs os

nothing :
    (id : ℕ) (t : Turn) (g g' : Router)
    → g'.confirmations ≡ g.confirmations
    → g'.sent_orders ≡ g.sent_orders
    → BringsAnswer id t accepted g g'
nothing id t g g' c s = (
  [],
  [],
  unsent,
  record {
    confirmations = c ∙ sym (append-nil g.confirmations);
    sent = s ∙ sym (append-nil g.sent_orders);
  },
)

refusal :
    (id : ℕ) (t : Turn) (g : Router) (status : OrderConfirmationStatus)
    → status ≢ accepted
    → BringsAnswer id t status g (confirm t id status g)
unfolding confirm
refusal id t g status h = (
  confirmation t id status ∷ [],
  [],
  refused status h,
  record { confirmations = refl; sent = sym (append-nil g.sent_orders) },
)

answer-complete :
    (t : Turn) (id : ℕ) (g : Router)
    → BringsAnswer id t accepted g (confirm_sent t id (after_send t id g complete))
unfolding confirm_sent confirm
answer-complete t id g = elim (Bool-cases (t.engine_after == t.engine)) [
  | inl e ↦
      rw (e, confirm_sent)
        (
          confirmation t id accepted ∷ [],
          sent_order t id ∷ [],
          confirmed (ground arith),
          record { confirmations = refl; sent = refl },
        )
  | inr e ↦
      rw (e, confirm_sent)
        (
          [],
          sent_order t id ∷ [],
          unconfirmed (ground arith),
          record { confirmations = sym (append-nil g.confirmations); sent = refl },
        )
]

answer-send :
    (t : Turn) (id : ℕ) (g : Router) (s : Sending)
    → BringsAnswer id t accepted g (confirm_sent t id (after_send t id g s))
unfolding confirm_sent
answer-send t id g complete = answer-complete t id g
answer-send t id g (stopped n) = nothing id t g _ refl refl

answer-drained :
    (t : Turn) (id : ℕ) (g : Router) (r : Bool × Resend)
    → BringsAnswer id t accepted g (after_drained t id g r)
unfolding send_order after_drained
answer-drained t id g (true, s) =
    let a = answer-send t id _ (send_loop t.send_results 0) in
    (a.0, a.1, a.2, record { confirmations = a.3.confirmations; sent = a.3.sent })
answer-drained t id g (false, s) = nothing id t g _ refl refl

answer-answer_order :
    (t : Turn) (id : ℕ) (r : OrderConfirmationStatus × Router)
    → BringsAnswer id t r.0 r.1 (answer_order t id r)
unfolding answer_order forward
answer-answer_order t id (accepted, g) = answer-drained t id g _
answer-answer_order t id (status, g) = refusal id t g _ (ground arith)

kept-check_turn :
    (t : Turn) (auth : ℕ) (g : Router)
    → ((check_turn t auth g).1.confirmations ≡ g.confirmations)
      × ((check_turn t auth g).1.sent_orders ≡ g.sent_orders)
      × ((check_turn t auth g).1.orders_count ≡ g.orders_count)
unfolding check_turn check_risk
kept-check_turn t auth g = elim (Bool-cases (is_connected t)) [
  | inr e ↦ rw (e, check_turn) (refl, refl, refl)
  | inl e ↦ elim (Bool-cases (auth == 0)) [
    | inl f ↦ rw (e, check_turn, f, check_risk) (refl, refl, refl)
    | inr f ↦ rw (e, check_turn, f, check_risk) (refl, refl, refl)
  ]
]

-- The turn's check is the verdict.
check_turn-verdict :
    (auth : ℕ) (t : Turn) (g : Router)
    → ((check_turn t auth g).0, (check_turn t auth g).1.local) ≡ verdict auth t g.local
unfolding check_turn check_risk verdict check_order_risk
check_turn-verdict auth t g = elim (Bool-cases (is_connected t)) [
  | inr e ↦ rw (e, check_turn, verdict) refl
  | inl e ↦ elim (Bool-cases (auth == 0)) [
    | inl f ↦ rw (e, check_turn, f, check_risk, verdict, check_order_risk) refl
    | inr f ↦ rw (e, check_turn, f, check_risk, verdict, check_order_risk) refl
  ]
]

-- The gateway's number does not reach the 32 bits of the id.
pub next_order_id_lem : (g : Router) → next_order_id g ≡ u32 g.orders_count
unfolding next_order_id
next_order_id_lem g = omega arith

next_count : (c d : ℕ) → d ≡ c → u32 (u64 (d + 1)) ≡ u32 (u32 c + 1)
next_count c d e = omega arith

count-route :
    (auth : ℕ) (t : Turn) (g : Router)
    → u32 (route auth t g).orders_count ≡ u32 (u32 g.orders_count + 1)
unfolding route
count-route auth t g =
    let a =
      (leaves-answer_order t (next_order_id g)
        ((check_turn t auth g).0, counted (check_turn t auth g).1)).orders_count in
    let b = (kept-check_turn t auth g).2 in ap u32 a ∙ next_count _ _ b

answer-route :
    (auth : ℕ) (t : Turn) (g : Router)
    → BringsAnswer (next_order_id g) t ((verdict auth t g.local).0) g (route auth t g)
unfolding route
answer-route auth t g =
    let v = ap (λ r. r.0) (check_turn-verdict auth t g) in
    let k = kept-check_turn t auth g in
    let a =
      answer-answer_order t (next_order_id g)
        ((check_turn t auth g).0, counted (check_turn t auth g).1) in
    (
      a.0,
      a.1,
      subst (λ s. Answer (next_order_id g) t s a.0 a.1) v a.2,
      record {
        confirmations = a.3.confirmations ∙ ap (λ xs. xs ++ a.0) k.0;
        sent = a.3.sent ∙ ap (λ xs. xs ++ a.1) k.1;
      },
    )

answers_from :
    (auth : ℕ) (ts : List Turn) (g : Router) (l : Local) (id : ℕ)
    → g.local ≡ l
    → u32 g.orders_count ≡ id
    → (cs : List OrderConfirmation) × (os : List Order) × Answers auth l id ts cs os
      × Brings g (consume_order auth ts g) cs os
unfolding consume_order
answers_from auth [] g l id m e = (
  [],
  [],
  none_left l id,
  record {
    confirmations = sym (append-nil g.confirmations);
    sent = sym (append-nil g.sent_orders);
  },
)
answers_from auth (t ∷ ts) g l id m e =
    let a = answer-route auth t g in
    let r =
      answers_from auth ts (route auth t g) ((verdict auth t l).1) (u32 (id + 1))
        (local-route auth t g
          ∙ ap (λ r. r.1) (check_turn-verdict auth t g)
          ∙ ap (λ k. (verdict auth t k).1) m)
        (count-route auth t g ∙ ap (λ n. u32 (n + 1)) e) in
    (
      a.0 ++ r.0,
      a.1 ++ r.1,
      turn l id t ts a.0 r.0 a.1 r.1
          (subst (λ k. Answer id t ((verdict auth t k).0) a.0 a.1) m
            (subst (λ n. Answer n t ((verdict auth t g.local).0) a.0 a.1) (next_order_id_lem g ∙ e)
              a.2))
          r.2,
      record {
        confirmations =
            r.3.confirmations
            ∙ ap (λ xs. xs ++ r.0) a.3.confirmations
            ∙ append_assoc g.confirmations a.0 r.0;
        sent = r.3.sent ∙ ap (λ xs. xs ++ r.1) a.3.sent ∙ append_assoc g.sent_orders a.1 r.1;
      },
    )

-- The orders of a batch get consecutive ids modulo 2^32, which start from the counter and do not depend
-- on the gateway. An order that the check of the risk refuses, with what the orders before it in the batch
-- have charged, or whose engine is not connected, is confirmed with that verdict and not sent. An accepted
-- order is confirmed only if it was sent whole, under the id of the confirmation, and the engine's
-- descriptor was the same afterwards; if it was not sent, the client gets no confirmation.
pub consume_order-Answers :
    (auth : ℕ) (ts : List Turn) (g : Router)
    → (cs : List OrderConfirmation) × (os : List Order) × Answers auth g.local
        (u32 g.orders_count)
        ts
        cs
        os
      × Brings g (consume_order auth ts g) cs os
consume_order-Answers auth ts g = answers_from auth ts g g.local (u32 g.orders_count) refl refl
