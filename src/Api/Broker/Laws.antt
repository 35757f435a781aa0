-- ===== src/Api/Broker/Laws.antt =====
-- internal/api/sse_broker.go: what the buffers hold over any calls of the broker and its receivers.
use mathlib.Core.Path.{subst}
use manteion_go.Base.{
  ℕ, ◌<◌, ◌≡◌, ◌≢◌, sym, ◌∙◌, inl, inr, String, ◌==◌, true, List, [], ◌∷◌, All, All-weaken, eqb,
  eqb→eq, Bool-cases, if◌then◌else◌, arith,
}
use manteion_go.Api.Broker.{
  Subscriber, EventBroker, new_event_broker, subscribe, is_subscriber, has_subscriber,
  drop_subscriber, unsubscribe, offer, broadcast, drop_first,
}
use manteion_go.Api.Broker.Buffers.{
  Operation, subscribes, unsubscribes, broadcasts, receives, perform, perform_all, IsSound,
  Distinct, Invariant, offer-Careful, take-Careful, send_all_as_map, take_event_as_map,
  map-Invariant,
}

fresh_channel :
    (b : EventBroker)
    → (ss : List Subscriber) → All (IsSound b) ss
    → All (λ (x : Subscriber). x.channel ≢ b.next_channel) ss
fresh_channel b ss sound =
    All-weaken ss (λ x (short, made, open_). λ e. absurd (omega (arith, made, e))) sound

subscribe-Invariant :
    (service : String) (b : EventBroker) → Invariant b → Invariant (subscribe service b).1
unfolding subscribe
subscribe-Invariant service b (sound, distinct, bounded) = (
  (
    (
      omega arith,
      omega arith,
      All-weaken b.closed (λ c h. λ e. absurd (omega (arith, h, e))) bounded,
    ),
    All-weaken b.clients (λ x (short, made, open_). (short, omega (arith, made), open_)) sound,
  ),
  (fresh_channel b b.clients sound, distinct),
  All-weaken b.closed (λ c h. omega (arith, h)) bounded,
)

is_subscriber-channel :
    (service : String) (ch : ℕ) (s : Subscriber)
    → is_subscriber service ch s ≡ true
    → s.channel ≡ ch
is_subscriber-channel service ch s h = elim (Bool-cases (s.service == service)) [
  | inl e ↦ eqb→eq s.channel ch (rw (e) at h)
  | inr e ↦ let h' = rw (e) at h in cc
]

-- A subscriber with the channel is there.
has_subscriber-bound :
    (service : String) (ch : ℕ) (b : EventBroker) (ss : List Subscriber)
    → has_subscriber service ch ss ≡ true
    → All (IsSound b) ss
    → ch < b.next_channel
unfolding has_subscriber
has_subscriber-bound service ch b [] h sound = cc
has_subscriber-bound service ch b (s ∷ ss) h ((short, made, open_), sound) =
    elim (Bool-cases (is_subscriber service ch s)) [
      | inl here ↦ subst (λ c. c < b.next_channel) (is_subscriber-channel service ch s here) made
      | inr other ↦ has_subscriber-bound service ch b ss (rw (other) at h) sound
    ]

drop_subscriber-All :
    (P : Subscriber → Type 0) (service : String) (ch : ℕ) (ss : List Subscriber)
    → All P ss
    → All P (drop_subscriber service ch ss)
unfolding drop_subscriber
drop_subscriber-All P service ch [] h = tt
drop_subscriber-All P service ch (s ∷ ss) (h, hs) =
    let rest = drop_subscriber-All P service ch ss hs in
    elim (Bool-cases (is_subscriber service ch s)) [
      | inl here ↦ rw (here) rest
      | inr other ↦ rw (other) (h, rest)
    ]

drop_subscriber-Distinct :
    (service : String) (ch : ℕ) (ss : List Subscriber)
    → Distinct ss
    → Distinct (drop_subscriber service ch ss)
unfolding drop_subscriber
drop_subscriber-Distinct service ch [] h = tt
drop_subscriber-Distinct service ch (s ∷ ss) (h, hs) =
    let rest = drop_subscriber-Distinct service ch ss hs in
    elim (Bool-cases (is_subscriber service ch s)) [
      | inl here ↦ rw (here) rest
      | inr other ↦ rw (other) (drop_subscriber-All _ service ch ss h, rest)
    ]

has_subscriber-differs :
    (service : String) (ch c : ℕ) (ss : List Subscriber)
    → All (λ (x : Subscriber). x.channel ≢ c) ss
    → has_subscriber service ch ss ≡ true
    → c ≢ ch
unfolding has_subscriber
has_subscriber-differs service ch c [] h there = cc
has_subscriber-differs service ch c (s ∷ ss) (h, hs) there =
    elim (Bool-cases (is_subscriber service ch s)) [
      | inl here ↦ λ e. h (is_subscriber-channel service ch s here ∙ sym e)
      | inr other ↦ has_subscriber-differs service ch c ss hs (rw (other) at there)
    ]

-- No subscriber that is left has the channel.
drop_subscriber-open :
    (service : String) (ch : ℕ) (ss : List Subscriber)
    → has_subscriber service ch ss ≡ true
    → Distinct ss
    → All (λ (x : Subscriber). x.channel ≢ ch) (drop_subscriber service ch ss)
unfolding has_subscriber drop_subscriber
drop_subscriber-open service ch [] h d = cc
drop_subscriber-open service ch (s ∷ ss) h (others, d) =
    elim (Bool-cases (is_subscriber service ch s)) [
      | inl here ↦ rw (here) (
          drop_subscriber-All _ service ch ss (
            All-weaken ss
              (λ x differs e. differs (e ∙ sym (is_subscriber-channel service ch s here))) others))
      | inr other ↦
          let later = rw (other) at h in
          rw (other) (
            has_subscriber-differs service ch s.channel ss others later,
            drop_subscriber-open service ch ss later d,
          )
    ]

both :
    (P Q : Subscriber → Type 0) (ss : List Subscriber)
    → All P ss
    → All Q ss
    → All (λ x. P x × Q x) ss
both P Q [] h k = tt
both P Q (s ∷ ss) (h, hs) (k, ks) = ((h, k), both P Q ss hs ks)

unsubscribe-Invariant :
    (service : String) (ch : ℕ) (b : EventBroker)
    → Invariant b
    → Invariant (unsubscribe service ch b)
unfolding unsubscribe
unsubscribe-Invariant service ch b (sound, distinct, bounded) =
    elim (Bool-cases (has_subscriber service ch b.clients)) [
      | inr gone ↦ rw (gone) (sound, distinct, bounded)
      | inl there ↦ rw (there) (
        All-weaken (drop_subscriber service ch b.clients)
            (λ x ((short, made, open_), differs). (short, made, (λ e. differs (sym e), open_)))
            (both (IsSound b) (λ x. x.channel ≢ ch) (drop_subscriber service ch b.clients)
              (drop_subscriber-All (IsSound b) service ch b.clients sound)
              (drop_subscriber-open service ch b.clients there distinct)),
        drop_subscriber-Distinct service ch b.clients distinct,
        (has_subscriber-bound service ch b b.clients there sound, bounded),
      )
    ]

perform-Invariant : (o : Operation) (b : EventBroker) → Invariant b → Invariant (perform o b)
unfolding broadcast
perform-Invariant (subscribes service) b h = subscribe-Invariant service b h
perform-Invariant (unsubscribes service ch) b h = unsubscribe-Invariant service ch b h
perform-Invariant (broadcasts service e) b h =
    subst (λ ss. Invariant (record b { clients = ss })) (sym (send_all_as_map service e b.clients))
      (map-Invariant (λ s. if s.service == service then offer e s else s) (offer-Careful service e)
        b h)
perform-Invariant (receives ch) b h =
    subst (λ ss. Invariant (record b { clients = ss })) (sym (take_event_as_map ch b.clients))
      (map-Invariant
        (λ s. if eqb s.channel ch then record s { buffer = drop_first s.buffer } else s)
        (take-Careful ch) b h)

-- Over any calls of the broker and of its receivers, each subscriber's channel is open and its own
-- alone, and its buffer holds at most 16 events: Broadcast never sends on a closed channel, and
-- Unsubscribe closes none twice.
pub perform_all-Invariant : (os : List Operation) → Invariant (perform_all os new_event_broker)
perform_all-Invariant os = from os new_event_broker (tt, tt, tt)
  where
    from : (os : List Operation) (b : EventBroker) → Invariant b → Invariant (perform_all os b)
    from [] b h = h
    from (o ∷ os) b h = from os (perform o b) (perform-Invariant o b h)
