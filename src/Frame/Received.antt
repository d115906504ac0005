-- ===== src/Frame/Received.antt =====
-- src/receivedframe.h and src/receivedframe.cpp: the header of a received frame, the checks on its size
-- and its end, and the construction of the frame class that its ids select.
use amqp_cpp.Base.{
  ℕ, zero, suc, ◌+◌, ◌-◌, ◌%◌, ◌^◌, Bool, ◌&&◌, ltb, leb, ◌==◌, if◌then◌else◌, List, [], ◌∷◌,
  length,
}
use amqp_cpp.Wire.{
  InBuffer, Reader, Result, ok, err, stuck, pure, throw, ◌>>=◌, next_uint8, next_uint16,
  next_uint32, next_uint64, next_data, frame_size_exceeded, invalid_end_of_frame, unrecognized_type,
  unrecognized_class, unrecognized_header_class,
}
use amqp_cpp.MetaData.{read_meta_data}
use amqp_cpp.Frame.{
  Frame, Method, method_frame, header_frame, body_frame, heartbeat_frame, connection_method,
  channel_method, exchange_method, queue_method, basic_method, confirm_method, transaction_method,
}
use amqp_cpp.Frame.Connection
use amqp_cpp.Frame.Channel
use amqp_cpp.Frame.Exchange
use amqp_cpp.Frame.Queue
use amqp_cpp.Frame.Basic
use amqp_cpp.Frame.Confirm
use amqp_cpp.Frame.Transaction

-- The object under construction: its position in the buffer, and the fields of the header.
pub record ReceivedFrame : Type 0 where
  pub position : InBuffer
  pub type_number : ℕ
  pub channel : ℕ
  pub payload_size : ℕ

-- `_buffer.size() >= 7`
unfoldable pub header : ReceivedFrame → Bool
header r = leb 7 (length r.position.buffer)

-- `totalSize`: the sum is a `uint32_t`.
unfoldable pub total_size : ReceivedFrame → ℕ
total_size r = (r.payload_size + 8) % 2 ^ 32

unfoldable pub complete : ReceivedFrame → Bool
unfolding total_size
complete r = leb (total_size r) (length r.position.buffer)

-- `buffer.byte(pos)`. The program reads behind the end of its buffer where the model answers 0.
unfoldable pub byte : List ℕ → ℕ → ℕ
byte [] i = 0
byte (b ∷ bs) zero = b
byte (b ∷ bs) (suc i) = byte bs i

-- `max > 0 && _payloadSize > max - 8`, on `uint32_t`.
unfoldable pub too_big : ℕ → ℕ → Bool
too_big max payload_size = ltb 0 max && ltb ((max + 2 ^ 32 - 8) % 2 ^ 32) payload_size

unfoldable pub check_frame : ℕ → ReceivedFrame → Result ReceivedFrame
unfolding too_big complete byte
check_frame max r =
    if too_big max r.payload_size
    then err frame_size_exceeded
    else if complete r
    then (if byte r.position.buffer ((r.payload_size + 7) % 2 ^ 32) == 206
        then ok r
        else err invalid_end_of_frame)
    else ok r

unfoldable pub read_header : Reader (ℕ × ℕ × ℕ)
read_header = next_uint8 >>= λ type_number. next_uint16 >>= λ channel.
    next_uint32 >>= λ payload_size. pure (type_number, channel, payload_size)

-- The constructor: with fewer than seven bytes every field keeps its zero.
unfoldable pub received_frame : List ℕ → ℕ → Result ReceivedFrame
received_frame buffer max =
    let start : InBuffer = record { buffer = buffer; skip = 0 } in
    if ltb (length buffer) 7
    then ok (record { position = start; type_number = 0; channel = 0; payload_size = 0 })
    else elim (read_header start) [
      | ok ((type_number, channel, payload_size), b) ↦ check_frame max (record {
        position = b;
        type_number = type_number;
        channel = channel;
        payload_size = payload_size;
      })
      | err e ↦ err e
      | stuck ↦ stuck
    ]

as_method {ℓ} : {A : Type ℓ} → (A → Method) → Reader A → Reader Method
as_method f m = m >>= λ a. pure (f a)

-- `processMethodFrame`, as far as it reads.
unfoldable pub read_method : Reader Method
unfolding as_method Connection.read_method Channel.read_method Exchange.read_method
    Queue.read_method Basic.read_method Confirm.read_method Transaction.read_method
read_method = next_uint16 >>= λ id.
    if id == 10
    then as_method connection_method Connection.read_method
    else if id == 20
    then as_method channel_method Channel.read_method
    else if id == 40
    then as_method exchange_method Exchange.read_method
    else if id == 50
    then as_method queue_method Queue.read_method
    else if id == 60
    then as_method basic_method Basic.read_method
    else if id == 85
    then as_method confirm_method Confirm.read_method
    else if id == 90
    then as_method transaction_method Transaction.read_method
    else throw (unrecognized_class id)

-- `processHeaderFrame`, as far as it reads.
unfoldable pub read_header_frame : ℕ → Reader Frame
read_header_frame channel = next_uint16 >>= λ id.
    if id == 60
    then (next_uint16 >>= λ weight. next_uint64 >>= λ body_size.
        read_meta_data >>= λ properties. pure (header_frame channel weight body_size properties))
    else throw (unrecognized_header_class id)

-- The switch of `process`: both 4 and 8 are heartbeats.
unfoldable pub read_frame : ReceivedFrame → Reader Frame
unfolding read_method read_header_frame
read_frame r =
    if r.type_number == 1
    then (read_method >>= λ m. pure (method_frame r.channel m))
    else if r.type_number == 2
    then read_header_frame r.channel
    else if r.type_number == 3
    then (next_data r.payload_size >>= λ payload. pure (body_frame r.channel payload))
    else if r.type_number == 4
    then pure (heartbeat_frame r.channel)
    else if r.type_number == 8
    then pure (heartbeat_frame r.channel)
    else throw (unrecognized_type r.type_number)
