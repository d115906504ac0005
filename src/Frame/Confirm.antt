-- ===== src/Frame/Confirm.antt =====
-- The confirm methods: src/confirmframe.h, the frame class of each method, src/confirm*frame.h, and
-- `ReceivedFrame::processConfirmFrame` in src/receivedframe.cpp as far as it reads the frame.
pub mod RoundTrip
use amqp_cpp.Base.{
  ℕ, ◌+◌, ◌%◌, ◌^◌, ◌<◌, ◌≡◌, Bool, true, false, not, ◌==◌, if◌then◌else◌, List, [], ◌++◌, length,
}
use amqp_cpp.Base.Int.{ℤ, InWord}
use amqp_cpp.Wire.{
  Reader, pure, throw, ◌>>=◌, ◌>>◌, unrecognized_method, add_uint8, add_uint16, add_uint32,
  add_uint64, next_uint8, next_uint16, next_uint32, next_uint64, add_int8, add_int16, add_int32,
  add_int64, next_int8, next_int16, next_int32, next_int64,
}
use amqp_cpp.Field.{FieldMap, table, table_size, fill_table, fill_short_string, fill_long_string}
use amqp_cpp.Field.BooleanSet.{get}
use amqp_cpp.Field.Size.{EntriesTyped}
use amqp_cpp.Field.RoundTrip.{IsEncodable}
use amqp_cpp.Field.Decode.{next_short_string, next_long_string, read_table}

-- A constructor for each frame class, with the fields of the class; a `BooleanSet` is its byte.
pub data ConfirmMethod : Type 0 where
  select : ℕ → ConfirmMethod
  select_ok : ConfirmMethod

unfoldable pub method_id : ConfirmMethod → ℕ
method_id (select no_wait) = 10
method_id select_ok = 11

-- What the constructor of the class hands down for the size of its arguments.
unfoldable pub arguments_size : ConfirmMethod → ℕ
arguments_size (select no_wait) = 1
arguments_size select_ok = 0

-- `fill`, behind the class and the method.
unfoldable pub fill_arguments : ConfirmMethod → List ℕ
fill_arguments (select no_wait) = add_uint8 no_wait
fill_arguments select_ok = []

-- Whether the channel waits for an answer before it sends more.
unfoldable pub synchronous : ConfirmMethod → Bool
synchronous (select no_wait) = true
synchronous select_ok = true

-- The constructors from a `ReceivedFrame` read the fields in order.
unfoldable pub read_select : Reader ConfirmMethod
read_select = next_uint8 >>= λ no_wait. pure (select no_wait)

-- The method id selects the class.
unfoldable pub read_method : Reader ConfirmMethod
unfolding read_select
read_method = next_uint16 >>= λ id.
    if id == 10
    then read_select
    else if id == 11
    then pure select_ok
    else throw (unrecognized_method 85 id)

-- The values that the class can hold and that its frame can carry.
abbrev pub IsValid : ConfirmMethod → Type 0
IsValid (select no_wait) = no_wait < 2 ^ 8
IsValid select_ok = Unit {0}

abbrev pub IsWritten : ConfirmMethod → Type 0
IsWritten m = Unit {0}
