-- ===== src/Frame/Transaction.antt =====
-- The transaction methods: src/transactionframe.h, the frame class of each method, src/transaction*frame.h, and
-- `ReceivedFrame::processTransactionFrame` in src/receivedframe.cpp as far as it reads the frame.
pub mod RoundTrip
use amqp_cpp.Base.{
  ℕ, ◌+◌, ◌%◌, ◌^◌, ◌<◌, ◌≡◌, Bool, true, false, not, ◌==◌, if◌then◌else◌, List, [], ◌++◌, length,
}
use amqp_cpp.Base.Int.{ℤ, InWord}
use amqp_cpp.Wire.{
  Reader, pure, throw, ◌>>=◌, ◌>>◌, unrecognized_method, add_uint8, add_uint16, add_uint32,
  add_uint64, next_uint8, next_uint16, next_uint32, next_uint64, add_int8, add_int16, add_int32,
  add_int64, next_int8, next_int16, next_int32, next_int64,
}
use amqp_cpp.Field.{FieldMap, table, table_size, fill_table, fill_short_string, fill_long_string}
use amqp_cpp.Field.BooleanSet.{get}
use amqp_cpp.Field.Size.{EntriesTyped}
use amqp_cpp.Field.RoundTrip.{IsEncodable}
use amqp_cpp.Field.Decode.{next_short_string, next_long_string, read_table}

-- A constructor for each frame class, with the fields of the class; a `BooleanSet` is its byte.
pub data TransactionMethod : Type 0 where
  select : TransactionMethod
  select_ok : TransactionMethod
  commit : TransactionMethod
  commit_ok : TransactionMethod
  rollback : TransactionMethod
  rollback_ok : TransactionMethod

unfoldable pub method_id : TransactionMethod → ℕ
method_id select = 10
method_id select_ok = 11
method_id commit = 20
method_id commit_ok = 21
method_id rollback = 30
method_id rollback_ok = 31

-- What the constructor of the class hands down for the size of its arguments.
unfoldable pub arguments_size : TransactionMethod → ℕ
arguments_size select = 0
arguments_size select_ok = 0
arguments_size commit = 0
arguments_size commit_ok = 0
arguments_size rollback = 0
arguments_size rollback_ok = 0

-- `fill`, behind the class and the method.
unfoldable pub fill_arguments : TransactionMethod → List ℕ
fill_arguments select = []
fill_arguments select_ok = []
fill_arguments commit = []
fill_arguments commit_ok = []
fill_arguments rollback = []
fill_arguments rollback_ok = []

-- Whether the channel waits for an answer before it sends more.
unfoldable pub synchronous : TransactionMethod → Bool
synchronous select = true
synchronous select_ok = true
synchronous commit = true
synchronous commit_ok = true
synchronous rollback = true
synchronous rollback_ok = true

-- The constructors from a `ReceivedFrame` read the fields in order.
-- The method id selects the class.
unfoldable pub read_method : Reader TransactionMethod
read_method = next_uint16 >>= λ id.
    if id == 10
    then pure select
    else if id == 11
    then pure select_ok
    else if id == 20
    then pure commit
    else if id == 21
    then pure commit_ok
    else if id == 30
    then pure rollback
    else if id == 31
    then pure rollback_ok
    else throw (unrecognized_method 90 id)

-- The values that the class can hold and that its frame can carry.
abbrev pub IsValid : TransactionMethod → Type 0
IsValid select = Unit {0}
IsValid select_ok = Unit {0}
IsValid commit = Unit {0}
IsValid commit_ok = Unit {0}
IsValid rollback = Unit {0}
IsValid rollback_ok = Unit {0}

abbrev pub IsWritten : TransactionMethod → Type 0
IsWritten m = Unit {0}
