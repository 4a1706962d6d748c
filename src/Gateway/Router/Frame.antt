-- ===== src/Gateway/Router/Frame.antt =====
-- What the answer to an order leaves as it is.
use naoto_exchange.Common.{ℕ, Bool, true, false, ◌≡◌, refl, ◌∙◌}
use naoto_exchange.Gateway.Risk.{OrderConfirmationStatus, accepted}
use naoto_exchange.Gateway.Router.{
  Router, Turn, Sending, complete, stopped, Resend, send_loop, after_send, send_order, confirm,
  confirm_sent, after_drained, forward, answer_order,
}

-- The attempts and the counter.
pub record Leaves (g g' : Router) : Type 0 where
  pub local : g'.local ≡ g.local
  pub orders_count : g'.orders_count ≡ g.orders_count

abbrev leaves : (g : Router) → Leaves g g
leaves g = record { local = refl; orders_count = refl }

leaves-confirm_sent : (t : Turn) (id : ℕ) (r : Bool × Router) → Leaves r.1 (confirm_sent t id r)
unfolding confirm
leaves-confirm_sent t id (true, g) = record { local = refl; orders_count = refl }
leaves-confirm_sent t id (false, g) = leaves g

leaves-after_send :
    (t : Turn) (id : ℕ) (g : Router) (s : Sending) → Leaves g (after_send t id g s).1
leaves-after_send t id g complete = record { local = refl; orders_count = refl }
leaves-after_send t id g (stopped n) = record { local = refl; orders_count = refl }

leaves-after_drained :
    (t : Turn) (id : ℕ) (g : Router) (r : Bool × Resend) → Leaves g (after_drained t id g r)
unfolding send_order after_drained
leaves-after_drained t id g (true, s) =
    let a = leaves-after_send t id _ (send_loop t.send_results 0) in
    let b = leaves-confirm_sent t id _ in
    record { local = b.local ∙ a.local; orders_count = b.orders_count ∙ a.orders_count }
leaves-after_drained t id g (false, s) = record { local = refl; orders_count = refl }

pub leaves-answer_order :
    (t : Turn) (id : ℕ) (r : OrderConfirmationStatus × Router) → Leaves r.1 (answer_order t id r)
unfolding answer_order forward confirm
leaves-answer_order t id (accepted, g) = leaves-after_drained t id g _
leaves-answer_order t id (_, g) = record { local = refl; orders_count = refl }
