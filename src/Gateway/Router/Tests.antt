-- ===== src/Gateway/Router/Tests.antt =====
-- A batch of three orders: one is sent, one is refused, and the last finds its engine's socket failing.
use naoto_exchange.Common.{
  int64, ℕ, zero, suc, ◌-◌, ◌^◌, List, [], ◌∷◌, ◌≡◌, true, false, refl, ℤ, pos, arith, update, map,
  ◌+ℤ◌, ◌-ℤ◌, ◌*ℤ◌,
}
use naoto_exchange.Wire.{Order, limit, buy, execute, u32}
use naoto_exchange.VersionedFd.{pack, unsigned_32, fd_of, signed_32}
use naoto_exchange.Gateway.Client.{
  ClientState, new_client_state, clear_attempts, get_asset_idx, find_asset,
}
use naoto_exchange.Gateway.Risk.{check_order_risk, check_client, check_funds, sync_session}
use naoto_exchange.Gateway.Router.{
  Router, Turn, sent, failed, OrderConfirmation, consume_order, route, check_turn, check_risk,
  is_connected, answer_order, forward, drain_buffer, drain_loop, send_loop, send_order,
  after_drained, confirm, confirm_sent, next_order_id,
}
use naoto_exchange.Gateway.Router.Confirms.{Answers, Brings, consume_order-Answers}
use naoto_exchange.Gateway.Router.Drains.{drain_buffer_drops}

abbrev ids : ℕ → ℕ
ids zero = 0
ids (suc zero) = 1
ids (suc (suc i)) = 999

abbrev funds : ℕ → ℤ
funds zero = pos 1000
funds (suc zero) = pos 5
funds (suc (suc i)) = pos 0

abbrev client : ClientState
client = record (new_client_state) {
  client_id = 7;
  asset_id = ids;
  confirmed = funds;
  auth = 1;
  session_id = 1;
}

abbrev buy_order : ℕ → Order
buy_order amount = record {
  price = pos 100;
  order_id = 0;
  client_order_id = amount;
  client_id = 7;
  amount = amount;
  asset_id = 1;
  order_type = limit;
  side = buy;
  action = execute;
}

abbrev engine : ℕ
unfolding pack
engine = pack (pos 4) 1

abbrev turns : List Turn
turns =
    record {
      order = buy_order 7;
      client = client;
      engine = engine;
      engine_after = engine;
      drain_results = [];
      send_results = sent 30 ∷ sent 10 ∷ [];
    }
    ∷ record {
      order = buy_order 4;
      client = client;
      engine = engine;
      engine_after = engine;
      drain_results = [];
      send_results = [];
    }
    ∷ record {
      order = buy_order 3;
      client = client;
      engine = engine;
      engine_after = engine;
      drain_results = [];
      send_results = sent 30 ∷ failed ∷ [];
    }
    ∷ []

abbrev router : Router
router = record {
  gateway_id = 2;
  orders_count = 5;
  local = record { attempts = clear_attempts; session_id = 1 };
  confirmation_buffer = 0;
  order_buffer = λ i. 0;
  order_offset = 0;
  confirmations = [];
  sent_orders = [];
}

two_answered :
    map (λ (c : OrderConfirmation). c.order_id) (consume_order 1 turns router).confirmations
    ≡ 5 ∷ 6 ∷ []
unfolding consume_order route check_turn check_risk is_connected answer_order forward drain_buffer
    drain_loop send_loop send_order after_drained confirm confirm_sent next_order_id
    check_order_risk check_client check_funds sync_session get_asset_idx find_asset update ◌+ℤ◌ ◌-ℤ◌
    ◌*ℤ◌ int64 fd_of signed_32 engine pack unsigned_32
two_answered = refl

one_sent : (consume_order 1 turns router).sent_orders ≡ record (buy_order 7) { order_id = 5 } ∷ []
unfolding consume_order route check_turn check_risk is_connected answer_order forward drain_buffer
    drain_loop send_loop send_order after_drained confirm confirm_sent next_order_id
    check_order_risk check_client check_funds sync_session get_asset_idx find_asset update ◌+ℤ◌ ◌-ℤ◌
    ◌*ℤ◌ int64 fd_of signed_32 engine pack unsigned_32
one_sent = refl

consume_order-Answers_example :
    (cs : List OrderConfirmation) × (os : List Order) × Answers 1 router.local (u32 5) turns cs os
    × Brings router (consume_order 1 turns router) cs os
consume_order-Answers_example = consume_order-Answers 1 turns router

drain_buffer_drops_example :
    (drain_buffer (failed ∷ []) (record { buffer = 40; offset = 0 })
      ≡ (false, record { buffer = 40; offset = 2 ^ 64 - 1 }))
    × (drain_buffer (sent 40 ∷ []) (record { buffer = 40; offset = 2 ^ 64 - 1 })
        ≡ (true, record { buffer = 0; offset = 0 }))
drain_buffer_drops_example = drain_buffer_drops 40 [] (sent 40 ∷ []) (omega arith, omega arith)
