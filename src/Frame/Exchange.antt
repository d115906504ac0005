-- ===== src/Frame/Exchange.antt =====
-- The exchange methods: src/exchangeframe.h, the frame class of each method, src/exchange*frame.h, and
-- `ReceivedFrame::processExchangeFrame` in src/receivedframe.cpp as far as it reads the frame.
pub mod RoundTrip
use amqp_cpp.Base.{
  ℕ, ◌+◌, ◌%◌, ◌^◌, ◌<◌, ◌≡◌, Bool, true, false, not, ◌==◌, if◌then◌else◌, List, [], ◌++◌, length,
}
use amqp_cpp.Base.Int.{ℤ, InWord}
use amqp_cpp.Wire.{
  Reader, pure, throw, ◌>>=◌, ◌>>◌, unrecognized_method, add_uint8, add_uint16, add_uint32,
  add_uint64, next_uint8, next_uint16, next_uint32, next_uint64, add_int8, add_int16, add_int32,
  add_int64, next_int8, next_int16, next_int32, next_int64,
}
use amqp_cpp.Field.{FieldMap, table, table_size, fill_table, fill_short_string, fill_long_string}
use amqp_cpp.Field.BooleanSet.{get}
use amqp_cpp.Field.Size.{EntriesTyped}
use amqp_cpp.Field.RoundTrip.{IsEncodable}
use amqp_cpp.Field.Decode.{next_short_string, next_long_string, read_table}

-- A constructor for each frame class, with the fields of the class; a `BooleanSet` is its byte.
pub data ExchangeMethod : Type 0 where
  declare : ℕ → List ℕ → List ℕ → ℕ → FieldMap → ExchangeMethod
  declare_ok : ExchangeMethod
  delete : ℕ → List ℕ → ℕ → ExchangeMethod
  delete_ok : ExchangeMethod
  bind : ℕ → List ℕ → List ℕ → List ℕ → ℕ → FieldMap → ExchangeMethod
  bind_ok : ExchangeMethod
  unbind : ℕ → List ℕ → List ℕ → List ℕ → ℕ → FieldMap → ExchangeMethod
  unbind_ok : ExchangeMethod

unfoldable pub method_id : ExchangeMethod → ℕ
method_id (declare deprecated name kind bools arguments) = 10
method_id declare_ok = 11
method_id (delete deprecated name bools) = 20
method_id delete_ok = 21
method_id (bind reserved destination source routing_key bools arguments) = 30
method_id bind_ok = 31
method_id (unbind reserved destination source routing_key bools arguments) = 40
method_id unbind_ok = 51

-- What the constructor of the class hands down for the size of its arguments.
unfoldable pub arguments_size : ExchangeMethod → ℕ
arguments_size (declare deprecated name kind bools arguments) =
    (length name + length kind + table_size arguments + 5) % 2 ^ 32
arguments_size declare_ok = 0
arguments_size (delete deprecated name bools) = (length name + 4) % 2 ^ 32
arguments_size delete_ok = 0
arguments_size (bind reserved destination source routing_key bools arguments) =
    (length destination + length source + length routing_key + table_size arguments + 6) % 2 ^ 32
arguments_size bind_ok = 0
arguments_size (unbind reserved destination source routing_key bools arguments) =
    (length destination + length source + length routing_key + table_size arguments + 6) % 2 ^ 32
arguments_size unbind_ok = 0

-- `fill`, behind the class and the method.
unfoldable pub fill_arguments : ExchangeMethod → List ℕ
fill_arguments (declare deprecated name kind bools arguments) =
    add_uint16 deprecated
    ++ (fill_short_string name
        ++ (fill_short_string kind ++ (add_uint8 bools ++ fill_table arguments)))
fill_arguments declare_ok = []
fill_arguments (delete deprecated name bools) =
    add_uint16 deprecated ++ (fill_short_string name ++ add_uint8 bools)
fill_arguments delete_ok = []
fill_arguments (bind reserved destination source routing_key bools arguments) =
    add_uint16 reserved
    ++ (fill_short_string destination
        ++ (fill_short_string source
            ++ (fill_short_string routing_key ++ (add_uint8 bools ++ fill_table arguments))))
fill_arguments bind_ok = []
fill_arguments (unbind reserved destination source routing_key bools arguments) =
    add_uint16 reserved
    ++ (fill_short_string destination
        ++ (fill_short_string source
            ++ (fill_short_string routing_key ++ (add_uint8 bools ++ fill_table arguments))))
fill_arguments unbind_ok = []

-- Whether the channel waits for an answer before it sends more.
unfoldable pub synchronous : ExchangeMethod → Bool
unfolding get
synchronous (declare deprecated name kind bools arguments) = not (get bools 4)
synchronous declare_ok = true
synchronous (delete deprecated name bools) = not (get bools 1)
synchronous delete_ok = true
synchronous (bind reserved destination source routing_key bools arguments) = not (get bools 0)
synchronous bind_ok = true
synchronous (unbind reserved destination source routing_key bools arguments) = not (get bools 0)
synchronous unbind_ok = true

-- The constructors from a `ReceivedFrame` read the fields in order.
unfoldable pub read_declare : Reader ExchangeMethod
read_declare = next_uint16 >>= λ deprecated. next_short_string >>= λ name.
    next_short_string >>= λ kind. next_uint8 >>= λ bools.
    read_table >>= λ arguments. pure (declare deprecated name kind bools arguments)

unfoldable pub read_delete : Reader ExchangeMethod
read_delete = next_uint16 >>= λ deprecated.
    next_short_string >>= λ name. next_uint8 >>= λ bools. pure (delete deprecated name bools)

unfoldable pub read_bind : Reader ExchangeMethod
read_bind = next_uint16 >>= λ reserved. next_short_string >>= λ destination.
    next_short_string >>= λ source. next_short_string >>= λ routing_key. next_uint8 >>= λ bools.
    read_table >>= λ arguments. pure (bind reserved destination source routing_key bools arguments)

unfoldable pub read_unbind : Reader ExchangeMethod
read_unbind = next_uint16 >>= λ reserved. next_short_string >>= λ destination.
    next_short_string >>= λ source. next_short_string >>= λ routing_key. next_uint8 >>= λ bools.
    read_table >>= λ arguments.
    pure (unbind reserved destination source routing_key bools arguments)

-- The method id selects the class.
unfoldable pub read_method : Reader ExchangeMethod
unfolding read_declare read_delete read_bind read_unbind
read_method = next_uint16 >>= λ id.
    if id == 10
    then read_declare
    else if id == 11
    then pure declare_ok
    else if id == 20
    then read_delete
    else if id == 21
    then pure delete_ok
    else if id == 30
    then read_bind
    else if id == 31
    then pure bind_ok
    else if id == 40
    then read_unbind
    else if id == 51
    then pure unbind_ok
    else throw (unrecognized_method 40 id)

-- The values that the class can hold and that its frame can carry.
abbrev pub IsValid : ExchangeMethod → Type 0
IsValid (declare deprecated name kind bools arguments) =
    (deprecated < 2 ^ 16)
    × (length name < 2 ^ 8)
    × (length kind < 2 ^ 8)
    × (bools < 2 ^ 8)
    × (EntriesTyped arguments × IsEncodable (table arguments))
IsValid declare_ok = Unit {0}
IsValid (delete deprecated name bools) =
    (deprecated < 2 ^ 16) × (length name < 2 ^ 8) × (bools < 2 ^ 8)
IsValid delete_ok = Unit {0}
IsValid (bind reserved destination source routing_key bools arguments) =
    (reserved < 2 ^ 16)
    × (length destination < 2 ^ 8)
    × (length source < 2 ^ 8)
    × (length routing_key < 2 ^ 8)
    × (bools < 2 ^ 8)
    × (EntriesTyped arguments × IsEncodable (table arguments))
IsValid bind_ok = Unit {0}
IsValid (unbind reserved destination source routing_key bools arguments) =
    (reserved < 2 ^ 16)
    × (length destination < 2 ^ 8)
    × (length source < 2 ^ 8)
    × (length routing_key < 2 ^ 8)
    × (bools < 2 ^ 8)
    × (EntriesTyped arguments × IsEncodable (table arguments))
IsValid unbind_ok = Unit {0}

abbrev pub IsWritten : ExchangeMethod → Type 0
IsWritten m = Unit {0}
