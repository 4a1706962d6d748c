-- ===== src/Matching/BidAsk/Reports.antt =====
-- The execution reports of the handlers: numbered without a gap, and balanced in every asset.
use naoto_exchange.Matching.Book
use naoto_exchange.Matching.BidAsk.{BidAsk}
use naoto_exchange.Matching.BidAsk.Handlers.{Outcome, done, terminated, corrupted}
use naoto_exchange.Matching.Book.{Book}
use naoto_exchange.Matching.BidAsk.Emits.{Emits}

-- A handler's reports, where it returns.
abbrev pub EmitsTo : BidAsk → Outcome → Type 0
EmitsTo e (done e') = Emits e e'
EmitsTo e terminated = Unit {0}
EmitsTo e corrupted = Unit {0}
