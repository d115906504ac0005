-- ===== src/Tests.antt =====
-- Runs of the models of src/ and include/amqpcpp/ at concrete frames, fields and states.
pub mod Addresses
pub mod Buffers
pub mod Messages
pub mod Confirms
pub mod Channels
use amqp_cpp.Base.{
  ◌≤◌, ◌⊎◌, ◌≡◌, ◌++◌, refl, arith, true, false, [], ◌∷◌, length, length-append, inr, some, map,
  ◌==◌, if◌then◌else◌,
}
use amqp_cpp.Base.Int.{pos}
use amqp_cpp.Wire.{InBuffer, ok, err, out_of_range, add_uint8, next_data, to_be, from_be}
use amqp_cpp.Wire.Reads.{at, next_data-out_of_range}
use amqp_cpp.Wire.Primitives.{from_be-to_be}
use amqp_cpp.MetaData
use amqp_cpp.MetaData.{MetaData, no_properties, read_meta_data}
use amqp_cpp.MetaData.RoundTrip.{read_meta_data-fill}
use amqp_cpp.MetaData.Size.{length-fill_meta_data}
use amqp_cpp.MetaData.Setters.{persistent, set_persistent, persistent-set_persistent}
use amqp_cpp.Connection
use amqp_cpp.Connection.{ConnectionImpl, CopiedBuffer}
use amqp_cpp.Connection.Order.{pipeline, pipeline-send, pipeline-send_copy, pipeline-set_ready}
use amqp_cpp.Channel
use amqp_cpp.Channel.{ChannelImpl}
use amqp_cpp.Channel.Order.{batch, kept, ends_synchronous, stream, stream-flush, stream-send}
use amqp_cpp.Channel.Waiting.{send_all, reject_multiple-blocks}
use amqp_cpp.Channel.Answers.{told}
use amqp_cpp.Field.Table
use amqp_cpp.Throttle
use amqp_cpp.Throttle.{Throttle, on_ack}
use amqp_cpp.Throttle.Window.{on_ack-window, send-window}
use amqp_cpp.Field.{
  Field, FieldMap, empty, entry, nil, cons, long_string, table, array, boolean_set, void_field,
  fill, size, type_id,
}
use amqp_cpp.Field.Size.{length-fill}
use amqp_cpp.Field.BooleanSet.{get, set, from_bools, get-set, get-from_bools, bool_at}
use amqp_cpp.Field.Decode.{decode, read_table}
use amqp_cpp.Field.Total.{IsValid, Ends, decode-Ends, read_table-Ends}
use amqp_cpp.Field.RoundTrip.{decode-fill}
use amqp_cpp.Field.Table.{IsSorted, get-set_entry}
use amqp_cpp.Frame.{
  Frame, method_frame, body_frame, heartbeat_frame, queue_method, basic_method, copied_buffer,
  total_size,
}
use amqp_cpp.Frame.Queue.{declare}
use amqp_cpp.Frame.Basic.{nack, ack}
use amqp_cpp.Frame.Size.{length-copied_buffer}
use amqp_cpp.Frame.Parse.{parse-copied_buffer}
use amqp_cpp.Frame.Received.{ReceivedFrame, received_frame, read_frame, complete}
use amqp_cpp.Frame.Received
use amqp_cpp.Frame
use amqp_cpp.Field
use amqp_cpp.Wire
use amqp_cpp.Frame.Queue

abbrev arguments : FieldMap
arguments =
    entry (97 ∷ []) (long_string (1 ∷ 2 ∷ []))
      (entry (98 ∷ []) (array (cons void_field (cons (boolean_set 1) nil))) empty)

abbrev pub declare_frame : Frame
declare_frame = method_frame 1 (queue_method (declare (pos 0) (113 ∷ []) 2 arguments))

declare_frame-length : length (copied_buffer declare_frame) ≡ 40
unfolding copied_buffer Frame.fill Frame.fill_header Frame.fill_payload Frame.class_id
    Frame.method_id Frame.fill_arguments Queue.fill_arguments Queue.method_id Frame.channel
    Frame.frame_type Frame.payload_size Frame.arguments_size Queue.arguments_size Field.size
    Field.fill Field.type_id Field.table_size Field.array_size Field.short_string_size
    Field.long_string_size Field.fill_long_string Wire.add_string add_uint8 Wire.add_uint16
    Wire.add_uint32 Wire.add_int16 to_be Field.fill_table Field.fill_short_string Field.fill_entries
declare_frame-length = refl

abbrev nested : Field
nested = table arguments

nested-IsTyped : Field.Size.IsTyped nested
nested-IsTyped = (tt, ((tt, (omega arith, tt)), tt))

nested-IsEncodable : Field.RoundTrip.IsEncodable nested
unfolding Field.size Field.Keys.str_lt Field.short_string_size Field.long_string_size
    Field.array_size
nested-IsEncodable = (
  omega arith,
  (refl, (tt, tt)),
  (omega arith, omega arith, (omega arith, (omega arith, (tt, (tt, tt))), tt)),
)

declare_frame-IsValid : Frame.Size.IsValidFrame declare_frame
declare_frame-IsValid =
    (omega arith, (omega arith, omega arith, omega arith, (nested-IsTyped, nested-IsEncodable)))

parse-copied_buffer_example :
    (r : ReceivedFrame) × (received_frame (copied_buffer declare_frame ++ (8 ∷ [])) 4096 ≡ ok r)
    × (complete r ≡ true)
    × (Received.total_size r ≡ length (copied_buffer declare_frame))
    × (read_frame r r.position ≡ ok (declare_frame, at (Frame.fill declare_frame) (206 ∷ 8 ∷ [])))
parse-copied_buffer_example =
    parse-copied_buffer declare_frame (8 ∷ []) 4096 declare_frame-IsValid tt
      (omega (arith, declare_frame-length))
      (omega (arith, declare_frame-length, length-append (copied_buffer declare_frame) (8 ∷ [])))
      (inr (omega (arith, declare_frame-length), omega arith))

length-copied_buffer_example : length (copied_buffer declare_frame) ≡ total_size declare_frame
length-copied_buffer_example =
    length-copied_buffer declare_frame declare_frame-IsValid tt
      (omega (arith, declare_frame-length))

nested-length : length (add_uint8 (type_id nested) ++ fill nested) ≡ 24
unfolding Field.size Field.fill type_id Field.table_size Field.array_size Field.short_string_size
    Field.long_string_size Field.fill_long_string Field.fill_short_string Wire.add_string add_uint8
    Wire.add_uint32 to_be
nested-length = refl

decode-fill_example :
    decode (at (7 ∷ []) ((add_uint8 (type_id nested) ++ fill nested) ++ (9 ∷ [])))
    ≡ ok (some nested, at ((7 ∷ []) ++ (add_uint8 (type_id nested) ++ fill nested)) (9 ∷ []))
decode-fill_example = decode-fill nested (7 ∷ []) (9 ∷ []) nested-IsTyped nested-IsEncodable (
    omega
      (arith, nested-length, length-append (add_uint8 (type_id nested) ++ fill nested) (9 ∷ [])))

length-fill_example : length (fill nested) ≡ size nested
length-fill_example = length-fill nested nested-IsTyped

-- A field type that does not exist, and a table whose announced size is longer than the buffer.
abbrev broken : InBuffer
broken = at [] (b'F' ∷ 0 ∷ 0 ∷ 1 ∷ 0 ∷ 1 ∷ 97 ∷ 63 ∷ [])

broken-IsValid : IsValid broken
broken-IsValid = record { within = omega arith; bounded = omega arith }

decode-Ends_example : Ends 1 broken (decode broken)
decode-Ends_example = decode-Ends broken broken-IsValid

read_table-Ends_example : Ends 4 broken (read_table broken)
read_table-Ends_example = read_table-Ends broken broken-IsValid

-- Properties with a content type and a delivery mode.
abbrev properties : MetaData
properties = record no_properties { bools1 = 144; content_type = 116 ∷ []; delivery_mode = 2 }

properties-IsValid : MetaData.RoundTrip.IsValid properties
unfolding get
properties-IsValid = record {
  byte1 = omega arith;
  byte2 = omega arith;
  content_type = record { present = λ h. omega arith; missing = λ h. cc };
  content_encoding = record { present = λ h. cc; missing = λ h. refl };
  headers = record { present = λ h. cc; missing = λ h. refl };
  delivery_mode = record { present = λ h. omega arith; missing = λ h. cc };
  priority = record { present = λ h. cc; missing = λ h. refl };
  correlation_id = record { present = λ h. cc; missing = λ h. refl };
  reply_to = record { present = λ h. cc; missing = λ h. refl };
  expiration = record { present = λ h. cc; missing = λ h. refl };
  message_id = record { present = λ h. cc; missing = λ h. refl };
  timestamp = record { present = λ h. cc; missing = λ h. refl };
  type_name = record { present = λ h. cc; missing = λ h. refl };
  user_id = record { present = λ h. cc; missing = λ h. refl };
  app_id = record { present = λ h. cc; missing = λ h. refl };
  cluster_id = record { present = λ h. cc; missing = λ h. refl };
}

properties-length : length (MetaData.fill properties) ≡ 5
unfolding get MetaData.fill MetaData.fill_properties Field.fill_short_string Wire.add_string
    add_uint8 to_be
properties-length = refl

read_meta_data-fill_example :
    read_meta_data (at [] (MetaData.fill properties ++ (1 ∷ [])))
    ≡ ok (properties, at (MetaData.fill properties) (1 ∷ []))
read_meta_data-fill_example =
    read_meta_data-fill properties [] (1 ∷ []) properties-IsValid
      (omega (arith, properties-length, length-append (MetaData.fill properties) (1 ∷ [])))

length-fill_meta_data_example : length (MetaData.fill properties) ≡ MetaData.size properties
length-fill_meta_data_example =
    length-fill_meta_data properties tt (omega (arith, properties-length))

get-set_entry_example :
    (Table.get (97 ∷ 97 ∷ []) (Table.set (97 ∷ 97 ∷ []) void_field arguments) ≡ void_field)
    × (Table.get (97 ∷ []) (Table.set (97 ∷ 97 ∷ []) void_field arguments)
        ≡ Table.get (97 ∷ []) arguments)
get-set_entry_example = get-set_entry (97 ∷ 97 ∷ []) (97 ∷ []) void_field arguments (λ h. cc)

-- A connection that is connected, and a channel on it.
abbrev pub open_connection : ConnectionImpl
open_connection = record {
  state = Connection.State.connected;
  is_closed = false;
  max_frame = 4096;
  queue = [];
  sent = [];
}

abbrev pub idle_channel : ChannelImpl
idle_channel = record {
  id = 1;
  state = Channel.State.ready;
  linked = true;
  queue = [];
  is_synchronous = false;
  deferred = [];
  reports = [];
}

abbrev pub ack_frame : Frame
ack_frame = method_frame 1 (basic_method (ack 7 0))

abbrev pub waiting_channel : ChannelImpl
waiting_channel = record idle_channel {
  is_synchronous = true;
  queue =
      record { bytes = 1 ∷ []; is_synchronous = false }
      ∷ record { bytes = 2 ∷ []; is_synchronous = true }
      ∷ record { bytes = 3 ∷ []; is_synchronous = false }
      ∷ [];
}

pipeline-send_example : pipeline (Connection.send open_connection ack_frame).0 ≡ (
    if (Connection.send open_connection ack_frame).1
    then pipeline open_connection ++ (copied_buffer ack_frame ∷ [])
    else pipeline open_connection)
unfolding Connection.part_of_handshake
pipeline-send_example = pipeline-send open_connection ack_frame refl

pipeline-send_copy_example :
    pipeline (Connection.send_copy open_connection (Connection.copy ack_frame)).0 ≡ (
      if (Connection.send_copy open_connection (Connection.copy ack_frame)).1
      then pipeline open_connection ++ ((Connection.copy ack_frame).bytes ∷ [])
      else pipeline open_connection)
pipeline-send_copy_example = pipeline-send_copy open_connection (Connection.copy ack_frame)

stream-flush_example :
    let (c', k', done) = Channel.flush waiting_channel open_connection in
    (done ≡ true)
    × (c'.queue ≡ kept waiting_channel.queue)
    × (c'.is_synchronous ≡ ends_synchronous waiting_channel.queue)
    × (pipeline k' ≡ pipeline open_connection ++ Connection.all_bytes (batch waiting_channel.queue))
    × (stream c' k' ≡ stream waiting_channel open_connection)
unfolding Connection.is_connected
stream-flush_example = stream-flush waiting_channel open_connection refl refl

stream-send_example :
    let (c', k', accepted) = Channel.send idle_channel open_connection ack_frame in
    stream c' k' ≡ (
      if accepted
      then stream idle_channel open_connection ++ (copied_buffer ack_frame ∷ [])
      else stream idle_channel open_connection)
unfolding Channel.usable Connection.part_of_handshake
stream-send_example = stream-send idle_channel open_connection ack_frame refl refl refl

abbrev nack_frame : Frame
nack_frame = method_frame 1 (basic_method (nack 7 (from_bools (true ∷ true ∷ []))))

abbrev nacked : ConnectionImpl
nacked = record open_connection { sent = copied_buffer nack_frame ∷ [] }

nack_accepted : Connection.send open_connection nack_frame ≡ (nacked, true)
unfolding Connection.send Connection.refuses Connection.is_ending Connection.is_connected
    Connection.part_of_handshake Connection.part_of_shutdown total_size Frame.payload_size
    Frame.arguments_size Frame.Basic.arguments_size
nack_accepted = refl

reject_multiple-blocks_example :
    let (c', after, sent) = Channel.reject_message idle_channel open_connection 7 true true in
    send_all c' after (ack_frame ∷ []) ≡ (
      record idle_channel { is_synchronous = true; queue = map Connection.copy (ack_frame ∷ []) },
      nacked,
    )
unfolding Channel.usable Channel.waiting
reject_multiple-blocks_example =
    reject_multiple-blocks idle_channel open_connection nacked 7 true (ack_frame ∷ []) refl refl
      refl nack_accepted

abbrev pub queued : CopiedBuffer
queued = record { bytes = 1 ∷ []; is_synchronous = false }

-- One message is open, the second one waits in two frames, and the third one behind it.
abbrev pub full_throttle : Throttle
full_throttle = record {
  last = 1;
  limit = 1;
  queue = (2, queued) ∷ (2, queued) ∷ (3, queued) ∷ [];
  unconfirmed = 1 ∷ [];
  implementation = idle_channel;
  connection = open_connection;
}

on_ack-window_example : length (on_ack 1 true full_throttle).unconfirmed ≤ full_throttle.limit
on_ack-window_example = on_ack-window 1 true full_throttle (omega arith)

abbrev roomy_throttle : Throttle
roomy_throttle = record full_throttle { limit = 2 }

send-window_example :
    length (Throttle.send 4 ack_frame roomy_throttle).0.unconfirmed ≤ roomy_throttle.limit
send-window_example = send-window 4 ack_frame roomy_throttle (omega arith) (inr (omega arith))
