-- ===== src/Account/Dispatcher/Steps.antt =====
-- What the dispatcher does with one answer, by the attempt to send it.
use naoto_exchange.Common.{
  ℕ, suc, ◌<◌, List, [], ◌∷◌, ◌++◌, Bool, true, false, Option, none, some, ◌≡◌, ◌⊎◌, refl, inl, inr,
  arith, ◌==◌, ltb, if◌then◌else◌, if_true, length, map,
}
use naoto_exchange.Queue.{try_pop}
use naoto_exchange.Queue.Fifo.{IsFifoAt}
use naoto_exchange.Pool.Owned.{count, remove, count-remove}
use naoto_exchange.Mempool.{release}
use naoto_exchange.Mempool.Operations.{IsUsed}
use naoto_exchange.Consumer.Batches.{remove_all, Held}
use naoto_exchange.Account.Dispatcher.{
  Response, SendResult, taken, try_again, gone, Attempt, Dispatcher, keep, finish, after_send,
  is_connected, send_message, consume_messages,
}

-- Delivered: to a gateway that is there and was not replaced meanwhile.
abbrev pub delivers : Bool → Bool → SendResult → Bool
delivers true true taken = true
delivers true false taken = false
delivers true same try_again = false
delivers true same gone = false
delivers false same result = false

-- Kept to be sent again.
abbrev pub keeps : Bool → Bool → SendResult → Bool
keeps true true taken = false
keeps true false taken = true
keeps true same try_again = true
keeps true same gone = false
keeps false same result = false

unfoldable pub is_delivered : Attempt → Bool
unfolding is_connected
is_delivered a = delivers (is_connected a) (a.word_after == a.word) a.result

unfoldable pub is_kept : Attempt → Bool
unfolding is_connected
is_kept a = keeps (is_connected a) (a.word_after == a.word) a.result

-- The responses whose attempts are of a kind.
unfoldable pub chosen : (Attempt → Bool) → (ℕ → Attempt) → ℕ → List Response → List Response
chosen p attempts turn [] = []
chosen p attempts turn (r ∷ rs) =
    let rest = chosen p attempts (suc turn) rs in if p (attempts turn) then r ∷ rest else rest

abbrev pub objects : List Response → List ℕ
objects rs = map (λ r. r.object) rs

module _ (pool capacity : ℕ) (r : Response) (d : Dispatcher) where
  -- The three ways in which an attempt ends.
  abbrev pub Ends : Bool → Bool → Option Dispatcher → Type 0
  Ends delivered kept x =
      ((delivered ≡ true) × (kept ≡ false) × (x ≡ finish pool r d))
      ⊎ (((delivered ≡ false) × (kept ≡ true) × (x ≡ keep capacity r d))
          ⊎ ((delivered ≡ false) × (kept ≡ false) × (x ≡ some d)))

  pub ends :
      (c same : Bool) (result : SendResult)
      → Ends
          (delivers c same result)
          (keeps c same result)
          (if c then after_send pool capacity same result r d else some d)
  unfolding after_send
  ends true true taken = inl (refl, refl, refl)
  ends true false taken = inr (inl (refl, refl, refl))
  ends true same try_again = inr (inl (refl, refl, refl))
  ends true same gone = inr (inr (refl, refl, refl))
  ends false same result = inr (inr (refl, refl, refl))

  pub send_message-Ends :
      (a : Attempt) → Ends (is_delivered a) (is_kept a) (send_message pool capacity a r d)
  unfolding send_message is_delivered is_kept
  send_message-Ends a = ends (is_connected a) (a.word_after == a.word) a.result

-- The queue, the pool and what is to be sent again, once a batch was taken.
pub record Dispatched (queue pool : ℕ) (rest : List Response) (held : List ℕ)
    (delivered kept : List Response) (d e : Dispatcher) : Type 0 where
  pub taken_off : IsFifoAt queue e.responses rest
  pub given_back : IsUsed pool e.responses_pool (remove_all (objects delivered) held)
  pub to_resend : e.responses_resend ≡ d.responses_resend ++ kept

module _ (p : Attempt → Bool) (attempts : ℕ → Attempt) (turn : ℕ) (r : Response)
    (rs : List Response) where
  pub chosen_yes :
      p (attempts turn) ≡ true
      → chosen p attempts turn (r ∷ rs) ≡ r ∷ chosen p attempts (suc turn) rs
  unfolding chosen
  chosen_yes e = rw (chosen, e) refl

  pub chosen_no :
      p (attempts turn) ≡ false → chosen p attempts turn (r ∷ rs) ≡ chosen p attempts (suc turn) rs
  unfolding chosen
  chosen_no e = rw (chosen, e) refl

pub Held-first : (a : ℕ) (batch held : List ℕ) → Held (a ∷ batch) held → 0 < count a held
unfolding count
Held-first a batch held h = ground (arith, h a)

pub Held-rest : (a : ℕ) (batch held : List ℕ) → Held (a ∷ batch) held → Held batch held
unfolding count
Held-rest a batch held h c = omega (arith, h c)

pub Held-remove : (a : ℕ) (batch held : List ℕ) → Held (a ∷ batch) held → Held batch (remove a held)
unfolding count
Held-remove a batch held h c = omega (arith, h c, count-remove a c held (Held-first a batch held h))

module _ (queue pool capacity : ℕ) (attempts : ℕ → Attempt) where
  pub consume_none :
      (n turn : ℕ) (d : Dispatcher)
      → (try_pop queue d.responses).0 ≡ none
      → consume_messages queue pool capacity attempts (suc n) turn d
        ≡ some (record d { responses = (try_pop queue d.responses).1 })
  unfolding consume_messages
  consume_none n turn d e = rw (consume_messages, e) refl

  pub consume_some :
      (n turn : ℕ) (d : Dispatcher) (r : Response) (e : Dispatcher)
      → (try_pop queue d.responses).0 ≡ some r
      → send_message pool capacity
          (attempts turn)
          r
          (record d { responses = (try_pop queue d.responses).1 })
        ≡ some e
      → consume_messages queue pool capacity attempts (suc n) turn d
        ≡ consume_messages queue pool capacity attempts n (suc turn) e
  unfolding consume_messages
  consume_some n turn d r e p s = rw (consume_messages, p, s) refl

pub finish-some :
    (pool : ℕ) (r : Response) (d : Dispatcher)
    → (release pool (some r.object) d.responses_pool).0 ≡ true
    → finish pool r d
      ≡ some (record d { responses_pool = (release pool (some r.object) d.responses_pool).1 })
unfolding finish
finish-some pool r d e = rw (finish, e) refl

pub keep-some :
    (capacity : ℕ) (r : Response) (d : Dispatcher)
    → length d.responses_resend < capacity
    → keep capacity r d ≡ some (record d { responses_resend = d.responses_resend ++ (r ∷ []) })
unfolding keep
keep-some capacity r d l =
    if_true (ltb (length d.responses_resend) capacity) _ _ (ground (arith, l))
