-- ===== src/Frame.antt =====
-- src/extframe.h, src/methodframe.h, src/headerframe.h, src/basicheaderframe.h, src/bodyframe.h,
-- src/heartbeatframe.h and include/amqpcpp/copiedbuffer.h: the frames that the library writes, by the
-- fields of their classes, and the bytes that they write.
pub mod Connection
pub mod Channel
pub mod Exchange
pub mod Queue
pub mod Basic
pub mod Confirm
pub mod Transaction
pub mod Received
pub mod Size
pub mod Parse
pub mod Partial
use amqp_cpp.Base.{ℕ, ◌+◌, ◌%◌, ◌^◌, ◌<◌, Bool, true, false, List, [], ◌∷◌, ◌++◌, length}
use amqp_cpp.Wire.{add_uint8, add_uint16, add_uint32, add_uint64, add_string}
use amqp_cpp.MetaData.{MetaData}
use amqp_cpp.MetaData
use Connection.{ConnectionMethod}
use Channel.{ChannelMethod}
use Exchange.{ExchangeMethod}
use Queue.{QueueMethod}
use Basic.{BasicMethod}
use Confirm.{ConfirmMethod}
use Transaction.{TransactionMethod}

-- The subclasses of `MethodFrame`, by the class that they belong to.
pub data Method : Type 0 where
  connection_method : ConnectionMethod → Method
  channel_method : ChannelMethod → Method
  exchange_method : ExchangeMethod → Method
  queue_method : QueueMethod → Method
  basic_method : BasicMethod → Method
  confirm_method : ConfirmMethod → Method
  transaction_method : TransactionMethod → Method

-- `channel` is the channel number; a `BasicHeaderFrame` has its weight, the size of the body and the
-- properties, and a `BodyFrame` its payload.
pub data Frame : Type 0 where
  method_frame : ℕ → Method → Frame
  header_frame : ℕ → ℕ → ℕ → MetaData → Frame
  body_frame : ℕ → List ℕ → Frame
  heartbeat_frame : ℕ → Frame

unfoldable pub class_id : Method → ℕ
class_id (connection_method m) = 10
class_id (channel_method m) = 20
class_id (exchange_method m) = 40
class_id (queue_method m) = 50
class_id (basic_method m) = 60
class_id (confirm_method m) = 85
class_id (transaction_method m) = 90

unfoldable pub method_id : Method → ℕ
unfolding Connection.method_id Channel.method_id Exchange.method_id Queue.method_id Basic.method_id
    Confirm.method_id Transaction.method_id
method_id (connection_method m) = Connection.method_id m
method_id (channel_method m) = Channel.method_id m
method_id (exchange_method m) = Exchange.method_id m
method_id (queue_method m) = Queue.method_id m
method_id (basic_method m) = Basic.method_id m
method_id (confirm_method m) = Confirm.method_id m
method_id (transaction_method m) = Transaction.method_id m

unfoldable pub arguments_size : Method → ℕ
unfolding Connection.arguments_size Channel.arguments_size Exchange.arguments_size
    Queue.arguments_size Basic.arguments_size Confirm.arguments_size Transaction.arguments_size
arguments_size (connection_method m) = Connection.arguments_size m
arguments_size (channel_method m) = Channel.arguments_size m
arguments_size (exchange_method m) = Exchange.arguments_size m
arguments_size (queue_method m) = Queue.arguments_size m
arguments_size (basic_method m) = Basic.arguments_size m
arguments_size (confirm_method m) = Confirm.arguments_size m
arguments_size (transaction_method m) = Transaction.arguments_size m

unfoldable pub fill_arguments : Method → List ℕ
unfolding Connection.fill_arguments Channel.fill_arguments Exchange.fill_arguments
    Queue.fill_arguments Basic.fill_arguments Confirm.fill_arguments Transaction.fill_arguments
fill_arguments (connection_method m) = Connection.fill_arguments m
fill_arguments (channel_method m) = Channel.fill_arguments m
fill_arguments (exchange_method m) = Exchange.fill_arguments m
fill_arguments (queue_method m) = Queue.fill_arguments m
fill_arguments (basic_method m) = Basic.fill_arguments m
fill_arguments (confirm_method m) = Confirm.fill_arguments m
fill_arguments (transaction_method m) = Transaction.fill_arguments m

unfoldable pub synchronous_method : Method → Bool
unfolding Connection.synchronous Channel.synchronous Exchange.synchronous Queue.synchronous
    Basic.synchronous Confirm.synchronous Transaction.synchronous
synchronous_method (connection_method m) = Connection.synchronous m
synchronous_method (channel_method m) = Channel.synchronous m
synchronous_method (exchange_method m) = Exchange.synchronous m
synchronous_method (queue_method m) = Queue.synchronous m
synchronous_method (basic_method m) = Basic.synchronous m
synchronous_method (confirm_method m) = Confirm.synchronous m
synchronous_method (transaction_method m) = Transaction.synchronous m

unfoldable pub frame_type : Frame → ℕ
frame_type (method_frame id m) = 1
frame_type (header_frame id weight body_size properties) = 2
frame_type (body_frame id payload) = 3
frame_type (heartbeat_frame id) = 8

unfoldable pub channel : Frame → ℕ
channel (method_frame id m) = id
channel (header_frame id weight body_size properties) = id
channel (body_frame id payload) = id
channel (heartbeat_frame id) = id

-- `_size` as the constructors of the frame classes compute it: a method adds its class and method
-- ids, a header its class id, the weight and the body size.
unfoldable pub payload_size : Frame → ℕ
payload_size (method_frame id m) = (arguments_size m + 4) % 2 ^ 32
payload_size (header_frame id weight body_size properties) =
    ((10 + MetaData.size properties) % 2 ^ 32 + 2) % 2 ^ 32
payload_size (body_frame id payload) = length payload % 2 ^ 32
payload_size (heartbeat_frame id) = 0

-- `totalSize`: a header of seven bytes and a trailer of one.
unfoldable pub total_size : Frame → ℕ
total_size f = (payload_size f + 7 + 1) % 2 ^ 32

unfoldable pub synchronous : Frame → Bool
unfolding synchronous_method
synchronous (method_frame id m) = synchronous_method m
synchronous (header_frame id weight body_size properties) = false
synchronous (body_frame id payload) = false
synchronous (heartbeat_frame id) = false

-- What `fill` writes behind the type, the channel and the size.
unfoldable pub fill_payload : Frame → List ℕ
fill_payload (method_frame id m) =
    add_uint16 (class_id m) ++ (add_uint16 (method_id m) ++ fill_arguments m)
fill_payload (header_frame id weight body_size properties) =
    add_uint16 60 ++ (add_uint16 weight ++ (add_uint64 body_size ++ MetaData.fill properties))
fill_payload (body_frame id payload) = add_string payload
fill_payload (heartbeat_frame id) = []

unfoldable pub fill_header : Frame → List ℕ
fill_header f = add_uint8 (frame_type f) ++ (add_uint16 (channel f) ++ add_uint32 (payload_size f))

unfoldable pub fill : Frame → List ℕ
fill f = fill_header f ++ fill_payload f

-- `CopiedBuffer(frame)`, and what `PassthroughBuffer` hands to the handler: the frame and its end.
unfoldable pub copied_buffer : Frame → List ℕ
copied_buffer f = fill f ++ add_uint8 206
