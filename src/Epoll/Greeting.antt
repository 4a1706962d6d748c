-- ===== src/Epoll/Greeting.antt =====
-- Over all the calls of `readMessage` for a connection, the bytes received are one first message and then
-- the messages of the batches.
use naoto_exchange.Common.{
  ℕ, ◌+◌, ◌-◌, ◌<◌, ◌≤◌, List, [], ◌∷◌, ◌++◌, true, false, ltb, leb, length, take, drop, ◌≡◌, ◌⊎◌,
  inl, inr, refl, ap, sym, ◌∙◌, subst, arith, Bool-cases, if_true, if◌then◌else◌, if_false,
  take_all, drop_all, length-take_le, length-append, append_assoc, All,
}
use naoto_exchange.Epoll.{ObjectBuffer, add_bytes, read_bytes, Turn}
use naoto_exchange.Epoll.Turns.{AreCut, stream, IsFramed, IsWhole}
use naoto_exchange.Epoll.Framing.{read_messages-IsFramed}
use naoto_exchange.Epoll.First.{
  FirstTurn, got, hung_up, not_now, broke, First, accept, first_loop, Session, new_session, Event,
  go_on, greet, after_first, read_event, read_events,
}

-- Before the first message is there: nothing was handled, and what came is in the buffer.
pub record IsWaiting (init : ℕ) (s : Session) : Type 0 where
  pub first : s.first_message ≡ true
  pub none_handled : s.handled ≡ []
  pub none_batched : s.client.batches ≡ []
  pub in_buffer : s.client.connected ≡ true → s.client.buffer ≡ s.received
  pub short : s.client.connected ≡ true → length s.received < init

-- After it: one message was handled, and the bytes behind it are framed.
pub record IsGreeted (init size : ℕ) (s : Session) : Type 0 where
  pub message : List ℕ
  pub behind : List ℕ
  pub first : s.first_message ≡ false
  pub handled_once : s.handled ≡ message ∷ []
  pub whole_message : length message ≡ init
  pub bytes_kept : s.received ≡ message ++ behind
  pub framed : IsFramed size behind s.client

-- No call of `recv` for the messages behind the first ends within one of them behind a whole one.
unfoldable pub EventsAreCut : ℕ → ℕ → List Event → Session → Type 0
unfolding AreCut read_event
EventsAreCut init size [] s = 0 < 1
EventsAreCut init size (ev ∷ evs) s =
    AreCut size (if s.first_message then 0 else length s.client.buffer) ev.turns
    × EventsAreCut init size evs (read_event init size ev s)

module _ (init size : ℕ) (fits : init ≤ size) where
  accept_lem :
      (bytes : List ℕ) (f : First)
      → length f.buffer ≤ init
      → f.buffer ≡ f.received
      → let g = accept init size bytes f in
        (g.removed ≡ false) × (g.buffer ≡ g.received) × (length g.buffer ≤ init)
  unfolding accept add_bytes
  accept_lem bytes f l e =
      let given = take (init - length f.buffer) bytes in
      let few = length-take_le (init - length f.buffer) bytes in
      let room : ltb size (length f.buffer + length given) ≡ false = ground (arith, few, l, fits) in
      rw (accept, add_bytes, room)
        (refl, ap (λ b. b ++ given) e, omega (arith, length-append f.buffer given, few, l))

  -- What the loop leaves of a client that it does not remove.
  abbrev Reads : First → Type 0
  Reads g = g.removed ≡ false → (g.buffer ≡ g.received) × (length g.buffer ≤ init)

  first_loop-Reads :
      (ts : List FirstTurn) (f : First)
      → f.removed ≡ false
      → length f.buffer ≤ init
      → f.buffer ≡ f.received
      → Reads (first_loop init size ts f)
  unfolding first_loop
  first_loop-Reads [] f r l e = λ h. (e, l)
  first_loop-Reads (got bytes ∷ ts) f r l e = elim (Bool-cases (leb init (length f.buffer))) [
    | inl y ↦ rw (first_loop, r, y) (λ h. (e, l))
    | inr y ↦
        let (r', e', l') = accept_lem bytes f l e in
        rw (first_loop, r, y) (first_loop-Reads ts (accept init size bytes f) r' l' e')
  ]
  first_loop-Reads (hung_up ∷ ts) f r l e = elim (Bool-cases (leb init (length f.buffer))) [
    | inl y ↦ rw (first_loop, r, y) (λ h. (e, l))
    | inr y ↦ rw (first_loop, r, y) (λ h. cc)
  ]
  first_loop-Reads (not_now ∷ ts) f r l e = λ h. (e, l)
  first_loop-Reads (broke ∷ ts) f r l e = elim (Bool-cases (leb init (length f.buffer))) [
    | inl y ↦ rw (first_loop, r, y) (λ h. (e, l))
    | inr y ↦ rw (first_loop, r, y) (λ h. cc)
  ]

  greet-IsGreeted :
      (ts : List Turn) (s : Session) (buffer : ObjectBuffer)
      → 0 < size
      → s.handled ≡ []
      → s.client.batches ≡ []
      → s.client.connected ≡ true
      → buffer ≡ s.received
      → length buffer ≤ init
      → leb init (length buffer) ≡ true
      → AreCut size 0 ts
      → IsGreeted init size (greet init size ts buffer s)
  unfolding greet read_bytes
  greet-IsGreeted ts s buffer p unhandled unbatched k e few enough cut =
      let exact : length buffer ≡ init = ground (arith, few, enough) in
      let whole : take init buffer ≡ buffer = take_all init buffer few in
      let empty : drop init buffer ≡ [] = drop_all init buffer few in
      let start : IsFramed size [] (record s.client { buffer = drop init buffer }) = record {
        rest = [];
        whole = subst (All (IsWhole size)) (sym unbatched) tt;
        bytes_kept = rw unbatched refl;
        small = p;
        kept = λ k. empty;
      } in
      record {
        message = buffer;
        behind = stream ts;
        first = refl;
        handled_once = rw (unhandled, whole) refl;
        whole_message = exact;
        bytes_kept = rw e refl;
        framed =
            read_messages-IsFramed size ts [] _ p k
              (subst (λ b. AreCut size (length {A = ℕ} b) ts) (sym empty) cut) start;
      }

  after_first_lem :
      (ts : List Turn) (f : First) (s : Session)
      → 0 < size
      → IsWaiting init s
      → s.client.connected ≡ true
      → Reads f
      → AreCut size 0 ts
      → IsWaiting init (after_first init size ts f s)
        ⊎ IsGreeted init size (after_first init size ts f s)
  unfolding after_first
  after_first_lem ts f s p w k reads cut = elim (Bool-cases f.removed) [
    | inl y ↦
        rw (after_first, y)
          (inl (record {
            first = w.first;
            none_handled = w.none_handled;
            none_batched = w.none_batched;
            in_buffer = λ h. cc;
            short = λ h. cc;
          }))
    | inr y ↦ elim (Bool-cases (leb init (length f.buffer))) [
      | inl z ↦
          let (same, few) = reads y in
          let greeted =
            greet-IsGreeted ts (record s { received = f.received }) f.buffer p w.none_handled
              w.none_batched k same few z cut in
          rw (after_first, y, z) (inr greeted)
      | inr z ↦
          let (same, few) = reads y in
          let missing : length f.buffer < init = ground (arith, z) in
          rw (after_first, y, z)
            (inl (record {
              first = w.first;
              none_handled = w.none_handled;
              none_batched = w.none_batched;
              in_buffer = λ h. same;
              short = λ h. subst (λ b. length b < init) same missing;
            }))
    ]
  ]

  go_on-IsGreeted :
      (ts : List Turn) (s : Session)
      → 0 < size
      → s.client.connected ≡ true
      → AreCut size (length s.client.buffer) ts
      → IsGreeted init size s
      → IsGreeted init size (go_on size ts s)
  go_on-IsGreeted ts s p k cut g = record {
    message = g.message;
    behind = g.behind ++ stream ts;
    first = g.first;
    handled_once = g.handled_once;
    whole_message = g.whole_message;
    bytes_kept =
        ap (λ b. b ++ stream ts) g.bytes_kept ∙ append_assoc g.message g.behind (stream ts);
    framed = read_messages-IsFramed size ts g.behind s.client p k cut g.framed;
  }

  abbrev IsSession : Session → Type 0
  IsSession s = IsWaiting init s ⊎ IsGreeted init size s

  read_event_lem :
      (ev : Event) (s : Session)
      → 0 < size
      → s.client.connected ≡ true
      → AreCut size (if s.first_message then 0 else length s.client.buffer) ev.turns
      → IsSession s
      → IsSession (read_event init size ev s)
  unfolding read_event
  read_event_lem ev s p k cut (inl w) =
      let in_buffer = w.in_buffer k in
      let few : length s.client.buffer ≤ init =
        subst (λ b. length b ≤ init) (sym in_buffer) (omega (arith, w.short k)) in
      let reads =
        first_loop-Reads ev.first_turns
          (record { buffer = s.client.buffer; received = s.received; removed = false }) refl few
          in_buffer in
      subst IsSession (sym (if_true s.first_message _ _ w.first)) (
        after_first_lem ev.turns _ s p w k reads
          (subst (λ n. AreCut size n ev.turns) (if_true s.first_message _ _ w.first) cut))
  read_event_lem ev s p k cut (inr g) =
      subst IsSession (sym (if_false s.first_message _ _ g.first)) (
        inr (
          go_on-IsGreeted ev.turns s p k
            (subst (λ n. AreCut size n ev.turns) (if_false s.first_message _ _ g.first) cut) g))

  read_events_keeps :
      (evs : List Event) (s : Session)
      → 0 < size
      → EventsAreCut init size evs s
      → IsSession s
      → IsSession (read_events init size evs s)
  unfolding read_events EventsAreCut
  read_events_keeps [] s p t h = h
  read_events_keeps (ev ∷ evs) s p t h = elim (Bool-cases s.client.connected) [
    | inl y ↦
        subst IsSession (sym (if_true s.client.connected _ _ y))
          (read_events_keeps evs (read_event init size ev s) p t.1 (read_event_lem ev s p y t.0 h))
    | inr y ↦ subst IsSession (sym (if_false s.client.connected _ _ y)) h
  ]

  -- When no call of `recv` for the messages behind the first ends within one of them behind a whole one,
  -- then however else it cuts the stream of a new connection over however many calls of `readMessage`, and
  -- however these end, for a first message of at least one byte that is no longer than the others: either
  -- no first message was handled and nothing batched, and as long as the client is connected, all that
  -- came is in the buffer and is less than a first message; or one first message was handled, and it, the
  -- whole messages of the batches in their order, and less than a message, which is in the
  -- buffer as long as the client is connected, are the bytes that came.
  pub read_events-IsGreeted :
      (evs : List Event)
      → 0 < init
      → EventsAreCut init size evs new_session
      → IsWaiting init (read_events init size evs new_session)
        ⊎ IsGreeted init size (read_events init size evs new_session)
  read_events-IsGreeted evs p t = read_events_keeps evs new_session (omega (arith, p, fits)) t (
      inl (record {
        first = refl;
        none_handled = refl;
        none_batched = refl;
        in_buffer = λ h. refl;
        short = λ h. p;
      }))
