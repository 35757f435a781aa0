-- ===== src/Api/Broker/Buffers.antt =====
-- internal/api/sse_broker.go: the calls of the broker, what they
-- are meant to keep, and the changes of buffers among them.
use mathlib.Core.Path.{subst}
use manteion_go.Base.{
  ℕ, ◌≤◌, ◌<◌, ◌≡◌, ◌≢◌, refl, sym, ap, ◌∙◌, inl, inr, String, ◌==◌, true, List, [], ◌∷◌, ◌++◌,
  length, length-append, All, map, ltb, eqb, Bool-cases, if◌then◌else◌, arith,
}
use manteion_go.Api.Broker.{
  Event, Subscriber, EventBroker, capacity, subscribe, unsubscribe, offer, send_all, broadcast,
  drop_first, take_event,
}

pub data Operation : Type 0 where
  subscribes : String → Operation
  unsubscribes : String → ℕ → Operation
  broadcasts : String → Event → Operation
  receives : ℕ → Operation

abbrev pub perform : Operation → EventBroker → EventBroker
perform (subscribes service) b = (subscribe service b).1
perform (unsubscribes service ch) b = unsubscribe service ch b
perform (broadcasts service e) b = broadcast service e b
perform (receives ch) b = record b { clients = take_event ch b.clients }

abbrev pub perform_all : List Operation → EventBroker → EventBroker
perform_all [] b = b
perform_all (o ∷ os) b = perform_all os (perform o b)

-- A channel of the broker was made by it, is open, and holds no more than its capacity.
abbrev pub IsSound : EventBroker → Subscriber → Type 0
IsSound b s =
    (length s.buffer ≤ capacity) × (s.channel < b.next_channel) × All (λ c. c ≢ s.channel) b.closed

-- No two subscribers share a channel.
abbrev pub Distinct : List Subscriber → Type 0
Distinct [] = Unit
Distinct (s ∷ ss) = All (λ (x : Subscriber). x.channel ≢ s.channel) ss × Distinct ss

abbrev pub Invariant : EventBroker → Type 0
Invariant b =
    All (IsSound b) b.clients × Distinct b.clients × All (λ c. c < b.next_channel) b.closed

pub send_all_as_map :
    (service : String) (e : Event) (ss : List Subscriber)
    → send_all service e ss
      ≡ map (λ (s : Subscriber). if s.service == service then offer e s else s) ss
unfolding send_all
send_all_as_map service e [] = refl
send_all_as_map service e (s ∷ ss) =
    ap (λ r. (if s.service == service then offer e s else s) ∷ r) (send_all_as_map service e ss)

pub take_event_as_map :
    (ch : ℕ) (ss : List Subscriber)
    → take_event ch ss
      ≡ map
          (λ (s : Subscriber).
            if eqb s.channel ch then record s { buffer = drop_first s.buffer } else s)
          ss
unfolding take_event
take_event_as_map ch [] = refl
take_event_as_map ch (s ∷ ss) =
    ap (λ r. (if eqb s.channel ch then record s { buffer = drop_first s.buffer } else s) ∷ r)
      (take_event_as_map ch ss)

-- A change of buffers that keeps within the capacity.
abbrev Careful : (Subscriber → Subscriber) → Type 0
Careful f =
    (s : Subscriber)
    → ((f s).channel ≡ s.channel) × (length s.buffer ≤ capacity → length (f s).buffer ≤ capacity)

room_left :
    (es : List Event) (e : Event)
    → ltb (length es) capacity ≡ true
    → length (es ++ e ∷ []) ≤ capacity
room_left es e room = ground (arith, length-append es (e ∷ []))

pub offer-Careful :
    (service : String) (e : Event) → Careful (λ s. if s.service == service then offer e s else s)
offer-Careful service e s = elim (Bool-cases (s.service == service)) [
  | inr other ↦ rw (other) (refl, λ h. h)
  | inl same ↦ rw (same) (elim (Bool-cases (ltb (length s.buffer) capacity)) [
    | inl room ↦ rw (room) (refl, λ h. room_left s.buffer e room)
    | inr full ↦ rw (full) (refl, λ h. h)
  ])
]

drop_first-length : (es : List Event) → length (drop_first es) ≤ length es
drop_first-length [] = omega arith
drop_first-length (e ∷ es) = omega arith

pub take-Careful :
    (ch : ℕ)
    → Careful (λ s. if eqb s.channel ch then record s { buffer = drop_first s.buffer } else s)
take-Careful ch s = elim (Bool-cases (eqb s.channel ch)) [
  | inr other ↦ rw (other) (refl, λ h. h)
  | inl same ↦ rw (same) (refl, λ h. omega (arith, drop_first-length s.buffer))
]

module _ (f : Subscriber → Subscriber) (careful : Careful f) where
  map-IsSound :
      (b : EventBroker) (ss : List Subscriber) → All (IsSound b) ss → All (IsSound b) (map f ss)
  map-IsSound b [] h = tt
  map-IsSound b (s ∷ ss) ((short, made, open_), hs) =
      let (same, keeps) = careful s in
      (
        (
          keeps short,
          subst (λ c. c < b.next_channel) (sym same) made,
          subst (λ c. All (λ d. d ≢ c) b.closed) (sym same) open_,
        ),
        map-IsSound b ss hs,
      )

  map_others :
      (c : ℕ) (ss : List Subscriber)
      → All (λ (x : Subscriber). x.channel ≢ c) ss
      → All (λ (x : Subscriber). x.channel ≢ c) (map f ss)
  map_others c [] h = tt
  map_others c (s ∷ ss) (h, hs) = (λ e. h (sym (careful s).0 ∙ e), map_others c ss hs)

  map-Distinct : (ss : List Subscriber) → Distinct ss → Distinct (map f ss)
  map-Distinct [] h = tt
  map-Distinct (s ∷ ss) (h, hs) = (
    subst (λ c. All (λ (x : Subscriber). x.channel ≢ c) (map f ss)) (sym (careful s).0)
        (map_others s.channel ss h),
    map-Distinct ss hs,
  )

  pub map-Invariant :
      (b : EventBroker) → Invariant b → Invariant (record b { clients = map f b.clients })
  map-Invariant b (sound, distinct, bounded) =
      (map-IsSound b b.clients sound, map-Distinct b.clients distinct, bounded)
