-- ===== src/Epoll/Tests.antt =====
-- Messages of four bytes that come in parts, and the theorems at them.
use naoto_exchange.Common.{
  ℕ, List, take, drop, [], ◌∷◌, ◌≡◌, ◌⊎◌, inl, inr, true, false, refl, arith,
}
use naoto_exchange.Epoll.{
  kept_bytes, Client, Turn, received, interrupted, would_block, receive, add_bytes, read_messages,
}
use naoto_exchange.Epoll.Framing.{fresh, messages_arrive}
use naoto_exchange.Epoll.Turns.{AreCut, torn_message, joined}
use naoto_exchange.Epoll.{read_bytes}
use naoto_exchange.Epoll.First.{
  got, not_now, Event, new_session, read_events, read_event, first_loop, accept, after_first, greet,
}
use naoto_exchange.Epoll.Greeting.{EventsAreCut, IsWaiting, IsGreeted, read_events-IsGreeted}

abbrev client : Client
client = record { buffer = 1 ∷ 2 ∷ []; connected = true; batches = [] }

-- The rest of a message, half of the next, and its rest.
abbrev turns : List Turn
turns =
    received (3 ∷ 4 ∷ []) true (90 ∷ [])
    ∷ interrupted
    ∷ received (5 ∷ 6 ∷ []) false []
    ∷ received (7 ∷ 8 ∷ []) true (91 ∷ 92 ∷ [])
    ∷ would_block
    ∷ []

two_batches :
    (read_messages 4 turns client).batches
    ≡ record { content = 1 ∷ 2 ∷ 3 ∷ 4 ∷ []; enqueued = true }
      ∷ record { content = 5 ∷ 6 ∷ 7 ∷ 8 ∷ []; enqueued = true }
      ∷ []
unfolding read_messages receive add_bytes kept_bytes
two_batches = refl

abbrev messages : List (List ℕ)
messages = (1 ∷ 2 ∷ []) ∷ (3 ∷ 4 ∷ []) ∷ []

abbrev parts : List Turn
parts =
    received (1 ∷ []) true (90 ∷ []) ∷ received (2 ∷ 3 ∷ 4 ∷ []) true (91 ∷ []) ∷ would_block ∷ []

parts-AreCut : AreCut 2 0 parts
unfolding AreCut
parts-AreCut = (inl refl, (inr refl, omega arith))

messages_arrive_example :
    (joined (read_messages 2 parts fresh).batches ≡ 1 ∷ 2 ∷ 3 ∷ 4 ∷ [])
    × ((read_messages 2 parts fresh).connected ≡ true → (read_messages 2 parts fresh).buffer ≡ [])
messages_arrive_example =
    messages_arrive 2 messages parts (omega arith) (refl, (refl, tt)) parts-AreCut refl

-- A first message of two bytes comes in two calls, and messages of four bytes behind it.
abbrev calls : List Event
calls =
    record { first_turns = got (1 ∷ []) ∷ not_now ∷ []; turns = [] }
    ∷ record {
      first_turns = got (2 ∷ 3 ∷ []) ∷ [];
      turns = received (3 ∷ 4 ∷ 5 ∷ []) true (90 ∷ []) ∷ would_block ∷ [];
    }
    ∷ record { first_turns = []; turns = received (6 ∷ []) true [] ∷ would_block ∷ [] }
    ∷ []

first_handled : (read_events 2 4 calls new_session).handled ≡ (1 ∷ 2 ∷ []) ∷ []
unfolding read_events read_event first_loop accept after_first greet read_messages receive add_bytes
    read_bytes kept_bytes
first_handled = refl

first_batched :
    (read_events 2 4 calls new_session).client.batches
    ≡ record { content = 3 ∷ 4 ∷ 5 ∷ 6 ∷ []; enqueued = true } ∷ []
unfolding read_events read_event first_loop accept after_first greet read_messages receive add_bytes
    read_bytes kept_bytes
first_batched = refl

calls-AreCut : EventsAreCut 2 4 calls new_session
unfolding EventsAreCut AreCut read_event first_loop accept after_first greet read_messages receive
    add_bytes read_bytes kept_bytes
calls-AreCut = (omega arith, ((inl refl, omega arith), ((inr refl, omega arith), omega arith)))

read_events-IsGreeted_example :
    IsWaiting 2 (read_events 2 4 calls new_session)
    ⊎ IsGreeted 2 4 (read_events 2 4 calls new_session)
read_events-IsGreeted_example =
    read_events-IsGreeted 2 4 (omega arith) calls (omega arith) calls-AreCut

-- Five bytes of which four are a message: the fifth is lost.
torn_message_example :
    (receive 4 (3 ∷ 4 ∷ 5 ∷ []) true (90 ∷ 91 ∷ []) client).buffer ≡ take 1 (drop 11 (90 ∷ 91 ∷ []))
torn_message_example =
    torn_message 4 (3 ∷ 4 ∷ 5 ∷ []) true (90 ∷ 91 ∷ []) client (omega arith) (omega arith)
