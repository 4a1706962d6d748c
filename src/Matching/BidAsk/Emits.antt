-- ===== src/Matching/BidAsk/Emits.antt =====
-- What happens to the execution reports between two states of the engine: the relation `Emits`, and
-- that the loops of the fill functions keep to it.
use naoto_exchange.Common.{
  ℕ, zero, suc, ◌+◌, ◌-◌, List, [], ◌∷◌, ◌++◌, ◌≡◌, refl, sym, subst, ap, ◌∙◌, arith, length,
  length-append, ◌==◌, if◌then◌else◌, ℤ, pos, neg, ◌+ℤ◌, ◌*ℤ◌, int_laws, true, false, Bool, ltb,
}
use naoto_exchange.Wire.{
  fill_report, OrderStateReport, OrderState, OrderSide, buy, sell, opposite, u32, u16,
}
use naoto_exchange.Matching.Level.{OrderNode, PriceLevel, get_id}
use naoto_exchange.Matching.BidAsk.{Outgoing, push, wait_for_room, BidAsk, emit_report, await_room}
use naoto_exchange.Matching.Book.{Book}
use naoto_exchange.Matching.BidAsk.Fill.{
  Filling, trade_report, trade, delete_offer, fill_level, fill_levels, set_best_price,
}
use naoto_exchange.Matching.BidAsk.Loops.{
  taken, left_over, at_level, fill_level_ind, fill_levels_ind,
}

-- What a report moves of one asset.
unfoldable pub moved : ℕ → OrderStateReport → ℤ
moved k r =
    (if r.bought_asset_id == k then r.bought_delta else pos 0)
    +ℤ (if r.sold_asset_id == k then r.sold_delta else pos 0)

unfoldable pub net : ℕ → List OrderStateReport → ℤ
unfolding moved
net k [] = pos 0
net k (r ∷ rs) = moved k r +ℤ net k rs

-- Consecutive sequence ids, from a first one on, modulo 2 ^ 32.
abbrev pub IsNumbered : ℕ → List OrderStateReport → Type 0
IsNumbered n [] = Unit {0}
IsNumbered n (r ∷ rs) = (r.sequence_id ≡ u32 n) × IsNumbered (u32 (n + 1)) rs

abbrev pub advance : ℕ → ℕ → ℕ
advance n zero = n
advance n (suc k) = advance (u32 (n + 1)) k

zero-add : (k : ℕ) → 0 + k ≡ k
zero-add k = omega arith

suc-add : (j k : ℕ) → suc j + k ≡ suc (j + k)
suc-add j k = omega arith

advance-add : (n j k : ℕ) → advance n (j + k) ≡ advance (advance n j) k
advance-add n zero k = ap (advance n) (zero-add k)
advance-add n (suc j) k = ap (advance n) (suc-add j k) ∙ advance-add (u32 (n + 1)) j k

IsNumbered-append :
    (n : ℕ) (rs qs : List OrderStateReport)
    → IsNumbered n rs
    → IsNumbered (advance n (length rs)) qs
    → IsNumbered n (rs ++ qs)
IsNumbered-append n [] qs h k = k
IsNumbered-append n (r ∷ rs) qs h k = (h.0, IsNumbered-append (u32 (n + 1)) rs qs h.1 k)

net-append : (k : ℕ) (rs qs : List OrderStateReport) → net k (rs ++ qs) ≡ net k rs +ℤ net k qs
unfolding net
net-append k [] qs = omega int_laws
net-append k (r ∷ rs) qs = rw (net-append k rs qs) (omega int_laws)

-- Reports are pushed one after the other, each of them tried or waited for.
pub data Pushes
    : List OrderStateReport → Outgoing OrderStateReport → Outgoing OrderStateReport → Type 0 where
  none_pushed : (q : Outgoing OrderStateReport) → Pushes [] q q
  tried :
      (r : OrderStateReport) (rs : List OrderStateReport) (q q' : Outgoing OrderStateReport)
      → Pushes rs (push r q) q'
      → Pushes (r ∷ rs) q q'
  waited :
      (r : OrderStateReport) (rs : List OrderStateReport) (q q' : Outgoing OrderStateReport)
      → Pushes rs (push r (wait_for_room q)) q'
      → Pushes (r ∷ rs) q q'

Pushes-append :
    (rs qs : List OrderStateReport) (q q' q'' : Outgoing OrderStateReport)
    → Pushes rs q q'
    → Pushes qs q' q''
    → Pushes (rs ++ qs) q q''
Pushes-append [] qs q q' q'' (none_pushed _) k = k
Pushes-append (r ∷ rs) qs q q' q'' (tried _ _ _ _ h) k =
    tried r (rs ++ qs) q q'' (Pushes-append rs qs (push r q) q' q'' h k)
Pushes-append (r ∷ rs) qs q q' q'' (waited _ _ _ _ h) k =
    waited r (rs ++ qs) q q'' (Pushes-append rs qs (push r (wait_for_room q)) q' q'' h k)

-- What happens to the reports between two states of the engine.
pub record Emits (e e' : BidAsk) : Type 0 where
  pub new : List OrderStateReport
  pub pushed : Pushes new e.outgoing_orders e'.outgoing_orders
  pub numbered : IsNumbered e.report_sequence_id new
  pub next : e'.report_sequence_id ≡ advance e.report_sequence_id (length new)
  pub balanced : (k : ℕ) → net k new ≡ pos 0

-- The reports do not change.
pub Emits-same :
    (e e' : BidAsk)
    → e'.outgoing_orders ≡ e.outgoing_orders
    → e'.report_sequence_id ≡ e.report_sequence_id
    → Emits e e'
unfolding net
Emits-same e e' p q = record {
  new = [];
  pushed = subst (Pushes [] e.outgoing_orders) (sym p) (none_pushed e.outgoing_orders);
  numbered = tt;
  next = q;
  balanced = λ k. refl;
}

pub Emits-trans : (d e f : BidAsk) → Emits d e → Emits e f → Emits d f
Emits-trans d e f a b = record {
  new = a.new ++ b.new;
  pushed = Pushes-append a.new b.new _ _ _ a.pushed b.pushed;
  numbered =
      IsNumbered-append d.report_sequence_id a.new b.new a.numbered (rw (← a.next) b.numbered);
  next =
      b.next
      ∙ ap (λ n. advance n (length b.new)) a.next
      ∙ sym (advance-add d.report_sequence_id (length a.new) (length b.new))
      ∙ ap (advance d.report_sequence_id) (sym (length-append a.new b.new));
  balanced = λ k. net-append k a.new b.new ∙ rw (a.balanced k, b.balanced k) (omega int_laws);
}

nothing_moved :
    (p q : Bool) → (if p then pos 0 else pos 0) +ℤ (if q then pos 0 else pos 0) +ℤ pos 0 ≡ pos 0
nothing_moved true true = omega int_laws
nothing_moved true false = omega int_laws
nothing_moved false true = omega int_laws
nothing_moved false false = omega int_laws

-- The buyer's report before the seller's, and the reverse: `a` of the asset for `b` in cash.
buyer_first :
    (p q : Bool) (a b : ℤ)
    → (if p then a else pos 0)
        +ℤ (if q then neg b else pos 0)
        +ℤ ((if q then b else pos 0) +ℤ (if p then neg a else pos 0) +ℤ pos 0)
      ≡ pos 0
buyer_first true true a b = omega int_laws
buyer_first true false a b = omega int_laws
buyer_first false true a b = omega int_laws
buyer_first false false a b = omega int_laws

-- A report without a trade moves nothing.
pub emit_report-Emits :
    (attempt : ℤ) (client order bought sold : ℕ) (state : OrderState) (e : BidAsk)
    → Emits e (emit_report (pos 0) (pos 0) attempt client order bought sold state e)
unfolding emit_report net moved
emit_report-Emits attempt client order bought sold state e = record {
  new = _ ∷ [];
  pushed = tried _ [] _ _ (none_pushed _);
  numbered = (refl, tt);
  next = refl;
  balanced = λ k. nothing_moved (u16 bought == k) (u16 sold == k);
}

-- A report that is waited for.
pub emit_report-Emits_waiting :
    (attempt : ℤ) (client order bought sold : ℕ) (state : OrderState) (e : BidAsk)
    → Emits e (emit_report (pos 0) (pos 0) attempt client order bought sold state (await_room e))
unfolding emit_report await_room net moved
emit_report-Emits_waiting attempt client order bought sold state e = record {
  new = _ ∷ [];
  pushed = waited _ [] _ _ (none_pushed _);
  numbered = (refl, tt);
  next = refl;
  balanced = λ k. nothing_moved (u16 bought == k) (u16 sold == k);
}

trade_reports-Emits :
    (s : OrderSide) (traded : ℕ) (price : ℤ) (client id left client' id' left' : ℕ) (e : BidAsk)
    → Emits e (
        trade_report
          (opposite s)
          traded
          price
          client'
          id'
          left'
          (trade_report s traded price client id left e))
unfolding trade_report net moved fill_report
trade_reports-Emits buy traded price client id left client' id' left' e = record {
  new = _ ∷ _ ∷ [];
  pushed = tried _ _ _ _ (tried _ [] _ _ (none_pushed _));
  numbered = (refl, (refl, tt));
  next = refl;
  balanced =
      λ k. buyer_first (u16 e.market_asset_id == k) (u16 0 == k) (pos traded) (traded *ℤ price);
}
trade_reports-Emits sell traded price client id left client' id' left' e = record {
  new = _ ∷ _ ∷ [];
  pushed = tried _ _ _ _ (tried _ [] _ _ (none_pushed _));
  numbered = (refl, (refl, tt));
  next = refl;
  balanced =
      λ k. buyer_first (u16 0 == k) (u16 e.market_asset_id == k) (traded *ℤ price) (pos traded);
}

trade-Emits :
    (s : OrderSide) (n : OrderNode) (l : PriceLevel) (f : Filling)
    → Emits f.engine (trade s n l f).engine
unfolding trade
trade-Emits s n l f =
    let priced : BidAsk = record (f.engine) {
      market_price = if ltb 0 (taken n f) then n.order.price else f.engine.market_price;
    } in
    let reports =
      trade_reports-Emits s (taken n f) l.price f.order.client_id f.order.order_id
        (f.order.amount - taken n f) n.order.client_id (get_id n) (left_over n f) priced in
    record {
      new = reports.new;
      pushed = reports.pushed;
      numbered = reports.numbered;
      next = reports.next;
      balanced = reports.balanced;
    }

delete_offer-Emits : (n : OrderNode) (f : Filling) → Emits f.engine (delete_offer n f).engine
unfolding delete_offer
delete_offer-Emits n f = Emits-same f.engine _ refl refl

fill_level-Emits :
    (s : OrderSide) (ns : List OrderNode) (l : PriceLevel) (f : Filling)
    → Emits f.engine (fill_level s ns l f).1.engine
fill_level-Emits s =
    fill_level_ind s (λ ns l f r. Emits f.engine r.1.engine)
      (λ l f. Emits-same f.engine _ refl refl) (λ n ns l f _. Emits-same f.engine _ refl refl)
      (λ n ns l f _ _. trade-Emits s n l f)
      (λ n ns l f r _ _ ih.
        Emits-trans f.engine _ _ (trade-Emits s n l f)
          (Emits-trans _ _ _ (delete_offer-Emits n (trade s n l f)) ih))

at_level-Emits :
    (s : OrderSide) (l : PriceLevel) (f : Filling) → Emits f.engine (at_level s l f).engine
unfolding set_best_price
at_level-Emits buy l f = Emits-same f.engine _ refl refl
at_level-Emits sell l f = Emits-same f.engine _ refl refl

level-Emits :
    (s : OrderSide) (l : PriceLevel) (f : Filling)
    → Emits f.engine (fill_level s l.orders l (at_level s l f)).1.engine
level-Emits s l f =
    Emits-trans f.engine _ _ (at_level-Emits s l f) (fill_level-Emits s l.orders l (at_level s l f))

pub fill_levels-Emits :
    (s : OrderSide) (b : Book) (f : Filling) → Emits f.engine (fill_levels s b f).1.engine
fill_levels-Emits s =
    fill_levels_ind s (λ b f r. Emits f.engine r.1.engine) (λ f. Emits-same f.engine _ refl refl)
      (λ l ls f _. Emits-same f.engine _ refl refl) (λ l ls f _ _. Emits-same f.engine _ refl refl)
      (λ l ls f _ _ _. at_level-Emits s l f) (λ l ls f _ _ _. level-Emits s l f)
      (λ l ls f q _ _ _ ih.
        Emits-trans f.engine _ _ (level-Emits s l f)
          (Emits-trans _ _ _ (Emits-same _ _ refl refl) ih))
