-- ===== src/Frame/Size.antt =====
-- `totalSize` of src/extframe.h against the bytes that a frame writes.
use amqp_cpp.Base.{◌+◌, ◌^◌, ◌<◌, ◌≡◌, refl, ◌++◌, length, length-append, arith}
use amqp_cpp.Wire.{add_uint8, add_uint16, add_uint32, add_uint64, add_string}
use amqp_cpp.Wire.Primitives.{
  length-add_uint8, length-add_uint16, length-add_uint32, length-add_uint64,
}
use amqp_cpp.MetaData
use amqp_cpp.Frame.{
  Frame, Method, method_frame, header_frame, body_frame, heartbeat_frame, class_id, method_id,
  arguments_size, fill_arguments, frame_type, channel, payload_size, total_size, fill_payload,
  fill_header, fill, copied_buffer, connection_method, channel_method, exchange_method,
  queue_method, basic_method, confirm_method, transaction_method,
}
use amqp_cpp.Field
use amqp_cpp.Frame

-- The values that a method's class can hold and that its frame can carry.
abbrev pub IsValid : Method → Type 0
IsValid (connection_method m) = Frame.Connection.IsValid m
IsValid (channel_method m) = Frame.Channel.IsValid m
IsValid (exchange_method m) = Frame.Exchange.IsValid m
IsValid (queue_method m) = Frame.Queue.IsValid m
IsValid (basic_method m) = Frame.Basic.IsValid m
IsValid (confirm_method m) = Frame.Confirm.IsValid m
IsValid (transaction_method m) = Frame.Transaction.IsValid m

-- A method as the constructors for writing make it.
abbrev pub IsWritten : Method → Type 0
IsWritten (connection_method m) = Frame.Connection.IsWritten m
IsWritten (channel_method m) = Frame.Channel.IsWritten m
IsWritten (exchange_method m) = Frame.Exchange.IsWritten m
IsWritten (queue_method m) = Frame.Queue.IsWritten m
IsWritten (basic_method m) = Frame.Basic.IsWritten m
IsWritten (confirm_method m) = Frame.Confirm.IsWritten m
IsWritten (transaction_method m) = Frame.Transaction.IsWritten m

abbrev pub IsValidFrame : Frame → Type 0
IsValidFrame (method_frame id m) = (id < 2 ^ 16) × IsValid m
IsValidFrame (header_frame id weight body_size properties) =
    (id < 2 ^ 16) × (weight < 2 ^ 16) × (body_size < 2 ^ 64) × MetaData.RoundTrip.IsValid properties
IsValidFrame (body_frame id payload) = id < 2 ^ 16
IsValidFrame (heartbeat_frame id) = id < 2 ^ 16

abbrev pub IsWrittenFrame : Frame → Type 0
IsWrittenFrame (method_frame id m) = IsWritten m
IsWrittenFrame (header_frame id weight body_size properties) =
    Field.Size.EntriesTyped properties.headers
IsWrittenFrame (body_frame id payload) = Unit {0}
IsWrittenFrame (heartbeat_frame id) = Unit {0}

length-fill_arguments :
    (m : Method)
    → IsValid m
    → IsWritten m
    → length (fill_arguments m) < 2 ^ 32
    → length (fill_arguments m) ≡ arguments_size m
unfolding fill_arguments arguments_size
length-fill_arguments (connection_method m) v w b =
    Frame.Connection.RoundTrip.length-fill_arguments m v w b
length-fill_arguments (channel_method m) v w b =
    Frame.Channel.RoundTrip.length-fill_arguments m v w b
length-fill_arguments (exchange_method m) v w b =
    Frame.Exchange.RoundTrip.length-fill_arguments m v w b
length-fill_arguments (queue_method m) v w b = Frame.Queue.RoundTrip.length-fill_arguments m v w b
length-fill_arguments (basic_method m) v w b = Frame.Basic.RoundTrip.length-fill_arguments m v w b
length-fill_arguments (confirm_method m) v w b =
    Frame.Confirm.RoundTrip.length-fill_arguments m v w b
length-fill_arguments (transaction_method m) v w b =
    Frame.Transaction.RoundTrip.length-fill_arguments m v w b

length-fill_payload :
    (f : Frame)
    → IsValidFrame f
    → IsWrittenFrame f
    → length (fill_payload f) < 2 ^ 32
    → length (fill_payload f) ≡ payload_size f
unfolding fill_payload payload_size add_string
length-fill_payload (method_frame id m) v w b = omega (
  arith,
  length-append (add_uint16 (class_id m)) (add_uint16 (method_id m) ++ fill_arguments m),
  length-append (add_uint16 (method_id m)) (fill_arguments m),
  length-add_uint16 (class_id m),
  length-add_uint16 (method_id m),
  length-fill_arguments m v.1 w,
)
length-fill_payload (header_frame id weight body_size properties) v w b = omega (
  arith,
  length-append (add_uint16 60)
      (add_uint16 weight ++ (add_uint64 body_size ++ MetaData.fill properties)),
  length-append (add_uint16 weight) (add_uint64 body_size ++ MetaData.fill properties),
  length-append (add_uint64 body_size) (MetaData.fill properties),
  length-add_uint16 60,
  length-add_uint16 weight,
  length-add_uint64 body_size,
  MetaData.Size.length-fill_meta_data properties w,
)
length-fill_payload (body_frame id payload) v w b = omega arith
length-fill_payload (heartbeat_frame id) v w b = refl

pub length-fill_header : (f : Frame) → length (fill_header f) ≡ 7
unfolding fill_header
length-fill_header f = omega (
  arith,
  length-append (add_uint8 (frame_type f)) (add_uint16 (channel f) ++ add_uint32 (payload_size f)),
  length-append (add_uint16 (channel f)) (add_uint32 (payload_size f)),
  length-add_uint8 (frame_type f),
  length-add_uint16 (channel f),
  length-add_uint32 (payload_size f),
)

pub length-copied_parts : (f : Frame) → length (copied_buffer f) ≡ length (fill_payload f) + 8
unfolding copied_buffer fill
length-copied_parts f = omega (
  arith,
  length-append (fill_header f ++ fill_payload f) (add_uint8 206),
  length-append (fill_header f) (fill_payload f),
  length-fill_header f,
  length-add_uint8 206,
)

-- For a frame whose values its class can hold, with fewer than 2 ^ 32 bytes: the payload is as long as
-- its announced size.
pub payload_size-length :
    (f : Frame)
    → IsValidFrame f
    → IsWrittenFrame f
    → length (copied_buffer f) < 2 ^ 32
    → length (fill_payload f) ≡ payload_size f
payload_size-length f v w b = length-fill_payload f v w (omega (arith, length-copied_parts f))

-- A frame whose values its class can hold and that is shorter than 2 ^ 32 bytes writes, with its end
-- byte, exactly the bytes that `totalSize` says, so a `CopiedBuffer` neither overruns nor underfills
-- what it allocated.
pub length-copied_buffer :
    (f : Frame)
    → IsValidFrame f
    → IsWrittenFrame f
    → length (copied_buffer f) < 2 ^ 32
    → length (copied_buffer f) ≡ total_size f
unfolding total_size
length-copied_buffer f v w b = omega (arith, length-copied_parts f, payload_size-length f v w b)
