-- ===== src/Api/Broker.antt =====
-- internal/api/sse_broker.go: the events of each service, to the channels of its subscribers. A channel
-- is a number, with its buffer; its receiver takes from the front.
pub mod Buffers
pub mod Laws
use manteion_go.Base.{
  ℕ, suc, ◌+◌, String, ◌==◌, Bool, true, false, not, ◌&&◌, ◌||◌, Option, none, some, List, [], ◌∷◌,
  ◌++◌, length, ltb, eqb, if◌then◌else◌,
}

pub record Event : Type 0 where
  pub type : String
  pub data_text : String

-- A subscriber: its service, its channel, and what the channel's buffer holds.
pub record Subscriber : Type 0 where
  pub service : String
  pub channel : ℕ
  pub buffer : List Event

-- EventBroker: the subscribers of all services, the channels that are closed, and the number of the
-- next channel.
pub record EventBroker : Type 0 where
  pub clients : List Subscriber
  pub closed : List ℕ
  pub next_channel : ℕ

abbrev pub new_event_broker : EventBroker
new_event_broker = record { clients = []; closed = []; next_channel = 0 }

abbrev pub capacity : ℕ
capacity = 16

unfoldable pub subscribe : String → EventBroker → ℕ × EventBroker
subscribe service b = (
  b.next_channel,
  record b {
    clients = record { service = service; channel = b.next_channel; buffer = [] } ∷ b.clients;
    next_channel = suc b.next_channel;
  },
)

abbrev pub is_subscriber : String → ℕ → Subscriber → Bool
is_subscriber service ch s = s.service == service && eqb s.channel ch

unfoldable pub has_subscriber : String → ℕ → List Subscriber → Bool
has_subscriber service ch [] = false
has_subscriber service ch (s ∷ ss) = is_subscriber service ch s || has_subscriber service ch ss

unfoldable pub drop_subscriber : String → ℕ → List Subscriber → List Subscriber
drop_subscriber service ch [] = []
drop_subscriber service ch (s ∷ ss) =
    let rest = drop_subscriber service ch ss in
    if is_subscriber service ch s then rest else s ∷ rest

unfoldable pub unsubscribe : String → ℕ → EventBroker → EventBroker
unfolding has_subscriber drop_subscriber
unsubscribe service ch b =
    if has_subscriber service ch b.clients
    then record b { clients = drop_subscriber service ch b.clients; closed = ch ∷ b.closed }
    else b

-- `select { case ch <- e: default: }`
abbrev pub offer : Event → Subscriber → Subscriber
offer e s = if ltb (length s.buffer) capacity then record s { buffer = s.buffer ++ e ∷ [] } else s

unfoldable pub send_all : String → Event → List Subscriber → List Subscriber
send_all service e [] = []
send_all service e (s ∷ ss) =
    (if s.service == service then offer e s else s) ∷ send_all service e ss

unfoldable pub broadcast : String → Event → EventBroker → EventBroker
unfolding send_all
broadcast service e b = record b { clients = send_all service e b.clients }

-- A receiver takes the oldest event of its buffer.
abbrev pub drop_first : List Event → List Event
drop_first [] = []
drop_first (e ∷ es) = es

unfoldable pub take_event : ℕ → List Subscriber → List Subscriber
take_event ch [] = []
take_event ch (s ∷ ss) =
    (if eqb s.channel ch then record s { buffer = drop_first s.buffer } else s) ∷ take_event ch ss

abbrev pub client_count : EventBroker → ℕ
client_count b = length b.clients
