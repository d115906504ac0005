-- ===== src/Frame/Channel.antt =====
-- The channel methods: src/channelframe.h, the frame class of each method, src/channel*frame.h, and
-- `ReceivedFrame::processChannelFrame` in src/receivedframe.cpp as far as it reads the frame.
pub mod RoundTrip
use amqp_cpp.Base.{
  ℕ, ◌+◌, ◌%◌, ◌^◌, ◌<◌, ◌≡◌, Bool, true, false, not, ◌==◌, if◌then◌else◌, List, [], ◌++◌, length,
}
use amqp_cpp.Base.Int.{ℤ, InWord}
use amqp_cpp.Wire.{
  Reader, pure, throw, ◌>>=◌, ◌>>◌, unrecognized_method, add_uint8, add_uint16, add_uint32,
  add_uint64, next_uint8, next_uint16, next_uint32, next_uint64, add_int8, add_int16, add_int32,
  add_int64, next_int8, next_int16, next_int32, next_int64,
}
use amqp_cpp.Field.{FieldMap, table, table_size, fill_table, fill_short_string, fill_long_string}
use amqp_cpp.Field.BooleanSet.{get}
use amqp_cpp.Field.Size.{EntriesTyped}
use amqp_cpp.Field.RoundTrip.{IsEncodable}
use amqp_cpp.Field.Decode.{next_short_string, next_long_string, read_table}

-- A constructor for each frame class, with the fields of the class; a `BooleanSet` is its byte.
pub data ChannelMethod : Type 0 where
  channel_open : ChannelMethod
  open_ok : ChannelMethod
  flow : ℕ → ChannelMethod
  flow_ok : ℕ → ChannelMethod
  close : ℤ → List ℕ → ℤ → ℤ → ChannelMethod
  close_ok : ChannelMethod

unfoldable pub method_id : ChannelMethod → ℕ
method_id channel_open = 10
method_id open_ok = 11
method_id (flow active) = 20
method_id (flow_ok active) = 21
method_id (close code text failing_class failing_method) = 40
method_id close_ok = 41

-- What the constructor of the class hands down for the size of its arguments.
unfoldable pub arguments_size : ChannelMethod → ℕ
arguments_size channel_open = 1
arguments_size open_ok = 4
arguments_size (flow active) = 1
arguments_size (flow_ok active) = 1
arguments_size (close code text failing_class failing_method) = (length text + 7) % 2 ^ 32
arguments_size close_ok = 0

-- `fill`, behind the class and the method.
unfoldable pub fill_arguments : ChannelMethod → List ℕ
fill_arguments channel_open = fill_short_string []
fill_arguments open_ok = fill_long_string []
fill_arguments (flow active) = add_uint8 active
fill_arguments (flow_ok active) = add_uint8 active
fill_arguments (close code text failing_class failing_method) =
    add_int16 code
    ++ (fill_short_string text ++ (add_int16 failing_class ++ add_int16 failing_method))
fill_arguments close_ok = []

-- Whether the channel waits for an answer before it sends more.
unfoldable pub synchronous : ChannelMethod → Bool
synchronous channel_open = true
synchronous open_ok = true
synchronous (flow active) = true
synchronous (flow_ok active) = true
synchronous (close code text failing_class failing_method) = true
synchronous close_ok = true

-- The constructors from a `ReceivedFrame` read the fields in order.
unfoldable pub read_channel_open : Reader ChannelMethod
read_channel_open = next_short_string >>= λ unused. pure channel_open

unfoldable pub read_open_ok : Reader ChannelMethod
read_open_ok = next_long_string >>= λ unused. pure open_ok

unfoldable pub read_flow : Reader ChannelMethod
read_flow = next_uint8 >>= λ active. pure (flow active)

unfoldable pub read_flow_ok : Reader ChannelMethod
read_flow_ok = next_uint8 >>= λ active. pure (flow_ok active)

unfoldable pub read_close : Reader ChannelMethod
read_close = next_int16 >>= λ code. next_short_string >>= λ text. next_int16 >>= λ failing_class.
    next_int16 >>= λ failing_method. pure (close code text failing_class failing_method)

-- The method id selects the class.
unfoldable pub read_method : Reader ChannelMethod
unfolding read_channel_open read_open_ok read_flow read_flow_ok read_close
read_method = next_uint16 >>= λ id.
    if id == 10
    then read_channel_open
    else if id == 11
    then read_open_ok
    else if id == 20
    then read_flow
    else if id == 21
    then read_flow_ok
    else if id == 40
    then read_close
    else if id == 41
    then pure close_ok
    else throw (unrecognized_method 20 id)

-- The values that the class can hold and that its frame can carry.
abbrev pub IsValid : ChannelMethod → Type 0
IsValid channel_open = Unit {0}
IsValid open_ok = Unit {0}
IsValid (flow active) = active < 2 ^ 8
IsValid (flow_ok active) = active < 2 ^ 8
IsValid (close code text failing_class failing_method) =
    (InWord (2 ^ 16) code)
    × (length text < 2 ^ 8)
    × (InWord (2 ^ 16) failing_class)
    × (InWord (2 ^ 16) failing_method)
IsValid close_ok = Unit {0}

abbrev pub IsWritten : ChannelMethod → Type 0
IsWritten m = Unit {0}
