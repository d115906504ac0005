-- ===== src/Receiver.antt =====
-- include/amqpcpp/deferredreceiver.h, src/deferredreceiver.cpp, src/deferredextreceiver.cpp,
-- src/deferredconsumer.cpp and include/amqpcpp/message.h: how a consumer puts a message together from
-- the frames that deliver it. `events` is what the callbacks of the user are told, all of which are
-- taken to be set but the one for whole messages, and to make no calls of their own.
pub mod RoundTrip
use amqp_cpp.Base.{
  ℕ, ◌+◌, ◌-◌, ◌%◌, ◌^◌, Bool, true, false, leb, ◌==◌, if◌then◌else◌, List, [], ◌∷◌, ◌++◌, length,
  take, min, Option, none, some,
}
use amqp_cpp.Field.BooleanSet.{get}
use amqp_cpp.MetaData.{MetaData, no_properties}
use amqp_cpp.Frame.{Frame, method_frame, header_frame, body_frame, basic_method}
use amqp_cpp.Frame.Basic.{deliver}

-- `bytes` is what `_body` points to: a buffer of the message's own, filled as far as `filled`, or the
-- payload of its only frame.
pub record Message : Type 0 where
  pub exchange : List ℕ
  pub routing_key : List ℕ
  pub properties : MetaData
  pub body_size : ℕ
  pub allocated : Bool
  pub filled : ℕ
  pub bytes : List ℕ

pub data Event : Type 0 where
  started : List ℕ → List ℕ → Event
  sized : ℕ → Event
  headers : MetaData → Event
  payload : List ℕ → Event
  message : List ℕ → List ℕ → MetaData → List ℕ → ℕ → Bool → Event
  delivered : ℕ → Bool → Event

-- `installed` tells that the channel hands its header and body frames to this object.
pub record Receiver : Type 0 where
  pub body_size : ℕ
  pub pending : Option Message
  pub wants_message : Bool
  pub delivery_tag : ℕ
  pub redelivered : Bool
  pub installed : Bool
  pub events : List Event

abbrev pub new_message : List ℕ → List ℕ → Message
new_message exchange routing_key = record {
  exchange = exchange;
  routing_key = routing_key;
  properties = no_properties;
  body_size = 0;
  allocated = false;
  filled = 0;
  bytes = [];
}

-- `Message::append`.
unfoldable pub append : Message → List ℕ → Message
append m buffer =
    let room = min (length buffer) ((m.body_size + 2 ^ 64 - m.filled) % 2 ^ 64) in
    let first = min (length buffer) m.body_size in
    if m.allocated
    then record m { filled = m.filled + room; bytes = m.bytes ++ take room buffer }
    else if leb m.body_size (length buffer)
    then record m { bytes = buffer }
    else record m { allocated = true; filled = first; bytes = take first buffer }

-- `Message::setBodySize` and `MetaData::set`.
unfoldable pub set_header : ℕ → MetaData → Message → Message
set_header size properties m = record m { body_size = size; properties = properties }

-- `_messageCallback(*_message, …)`: the body is as long as its size says.
abbrev pub message_event : Receiver → Option Message → List Event
message_event r none = []
message_event r (some m) =
    message m.exchange m.routing_key m.properties (take m.body_size m.bytes) r.delivery_tag
      r.redelivered
    ∷ []

-- `DeferredExtReceiver::complete`.
unfoldable pub complete : Receiver → Receiver
complete r = record r {
  events = r.events ++ (message_event r r.pending ++ (delivered r.delivery_tag r.redelivered ∷ []));
  pending = none;
  installed = false;
}

abbrev pub on_message : (Message → Message) → Option Message → Option Message
on_message f none = none
on_message f (some m) = some (f m)

-- `DeferredConsumer::process(BasicDeliverFrame &)` with `DeferredExtReceiver::initialize`.
unfoldable pub process_deliver : Receiver → ℕ → Bool → List ℕ → List ℕ → Receiver
process_deliver r tag redelivered exchange routing_key = record r {
  installed = true;
  delivery_tag = tag;
  redelivered = redelivered;
  events = r.events ++ (started exchange routing_key ∷ []);
  pending = if r.wants_message then some (new_message exchange routing_key) else r.pending;
}

-- `DeferredReceiver::process(BasicHeaderFrame &)`.
unfoldable pub process_header : Receiver → ℕ → MetaData → Receiver
unfolding set_header
process_header r size properties =
    let r' : Receiver = record r {
      body_size = size;
      pending = on_message (set_header size properties) r.pending;
      events = r.events ++ (sized size ∷ headers properties ∷ []);
    } in
    if size == 0 then complete r' else r'

-- `DeferredReceiver::process(BodyFrame &)`, on a `uint64_t`.
unfoldable pub process_body : Receiver → List ℕ → Receiver
process_body r bytes =
    let left = (r.body_size + 2 ^ 64 - length bytes % 2 ^ 32) % 2 ^ 64 in
    let r' : Receiver = record r {
      body_size = left;
      pending = on_message (λ m. append m bytes) r.pending;
      events = r.events ++ (payload bytes ∷ []);
    } in
    if left == 0 then complete r' else r'

-- The frames of the channel, where every delivery is for this consumer: header and body frames go to
-- the object that is installed, and are dropped where there is none.
unfoldable pub receive : Receiver → Frame → Receiver
unfolding process_deliver process_header process_body get
receive r (method_frame id (basic_method (deliver consumer tag redelivered exchange routing_key))) =
    process_deliver r tag (get redelivered 0) exchange routing_key
receive r (header_frame id weight size properties) =
    if r.installed then process_header r size properties else r
receive r (body_frame id bytes) = if r.installed then process_body r bytes else r
receive r frame = r

unfoldable pub receive_all : Receiver → List Frame → Receiver
receive_all r [] = r
receive_all r (f ∷ fs) = receive_all (receive r f) fs
