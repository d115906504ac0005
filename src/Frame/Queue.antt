-- ===== src/Frame/Queue.antt =====
-- The queue methods: src/queueframe.h, the frame class of each method, src/queue*frame.h, and
-- `ReceivedFrame::processQueueFrame` in src/receivedframe.cpp as far as it reads the frame.
pub mod RoundTrip
use amqp_cpp.Base.{
  ℕ, ◌+◌, ◌%◌, ◌^◌, ◌<◌, ◌≡◌, Bool, true, false, not, ◌==◌, if◌then◌else◌, List, [], ◌++◌, length,
}
use amqp_cpp.Base.Int.{ℤ, InWord}
use amqp_cpp.Wire.{
  Reader, pure, throw, ◌>>=◌, ◌>>◌, unrecognized_method, add_uint8, add_uint16, add_uint32,
  add_uint64, next_uint8, next_uint16, next_uint32, next_uint64, add_int8, add_int16, add_int32,
  add_int64, next_int8, next_int16, next_int32, next_int64,
}
use amqp_cpp.Field.{FieldMap, table, table_size, fill_table, fill_short_string, fill_long_string}
use amqp_cpp.Field.BooleanSet.{get}
use amqp_cpp.Field.Size.{EntriesTyped}
use amqp_cpp.Field.RoundTrip.{IsEncodable}
use amqp_cpp.Field.Decode.{next_short_string, next_long_string, read_table}

-- A constructor for each frame class, with the fields of the class; a `BooleanSet` is its byte.
pub data QueueMethod : Type 0 where
  declare : ℤ → List ℕ → ℕ → FieldMap → QueueMethod
  declare_ok : List ℕ → ℤ → ℤ → QueueMethod
  bind : ℕ → List ℕ → List ℕ → List ℕ → ℕ → FieldMap → QueueMethod
  bind_ok : QueueMethod
  purge : ℤ → List ℕ → ℕ → QueueMethod
  purge_ok : ℤ → QueueMethod
  delete : ℤ → List ℕ → ℕ → QueueMethod
  delete_ok : ℤ → QueueMethod
  unbind : ℤ → List ℕ → List ℕ → List ℕ → FieldMap → QueueMethod
  unbind_ok : QueueMethod

unfoldable pub method_id : QueueMethod → ℕ
method_id (declare deprecated name bools arguments) = 10
method_id (declare_ok name message_count consumer_count) = 11
method_id (bind deprecated name exchange routing_key no_wait arguments) = 20
method_id bind_ok = 21
method_id (purge deprecated name no_wait) = 30
method_id (purge_ok message_count) = 31
method_id (delete deprecated name bools) = 40
method_id (delete_ok message_count) = 41
method_id (unbind deprecated name exchange routing_key arguments) = 50
method_id unbind_ok = 51

-- What the constructor of the class hands down for the size of its arguments.
unfoldable pub arguments_size : QueueMethod → ℕ
arguments_size (declare deprecated name bools arguments) =
    (length name + table_size arguments + 4) % 2 ^ 32
arguments_size (declare_ok name message_count consumer_count) = (length name + 9) % 2 ^ 32
arguments_size (bind deprecated name exchange routing_key no_wait arguments) =
    (length name + length exchange + length routing_key + table_size arguments + 6) % 2 ^ 32
arguments_size bind_ok = 0
arguments_size (purge deprecated name no_wait) = (length name + 4) % 2 ^ 32
arguments_size (purge_ok message_count) = 4
arguments_size (delete deprecated name bools) = (length name + 4) % 2 ^ 32
arguments_size (delete_ok message_count) = 4
arguments_size (unbind deprecated name exchange routing_key arguments) =
    (length name + length exchange + length routing_key + table_size arguments + 5) % 2 ^ 32
arguments_size unbind_ok = 0

-- `fill`, behind the class and the method.
unfoldable pub fill_arguments : QueueMethod → List ℕ
fill_arguments (declare deprecated name bools arguments) =
    add_int16 deprecated ++ (fill_short_string name ++ (add_uint8 bools ++ fill_table arguments))
fill_arguments (declare_ok name message_count consumer_count) =
    fill_short_string name ++ (add_int32 message_count ++ add_int32 consumer_count)
fill_arguments (bind deprecated name exchange routing_key no_wait arguments) =
    add_uint16 deprecated
    ++ (fill_short_string name
        ++ (fill_short_string exchange
            ++ (fill_short_string routing_key ++ (add_uint8 no_wait ++ fill_table arguments))))
fill_arguments bind_ok = []
fill_arguments (purge deprecated name no_wait) =
    add_int16 deprecated ++ (fill_short_string name ++ add_uint8 no_wait)
fill_arguments (purge_ok message_count) = add_int32 message_count
fill_arguments (delete deprecated name bools) =
    add_int16 deprecated ++ (fill_short_string name ++ add_uint8 bools)
fill_arguments (delete_ok message_count) = add_int32 message_count
fill_arguments (unbind deprecated name exchange routing_key arguments) =
    add_int16 deprecated
    ++ (fill_short_string name
        ++ (fill_short_string exchange ++ (fill_short_string routing_key ++ fill_table arguments)))
fill_arguments unbind_ok = []

-- Whether the channel waits for an answer before it sends more.
unfoldable pub synchronous : QueueMethod → Bool
unfolding get
synchronous (declare deprecated name bools arguments) = not (get bools 4)
synchronous (declare_ok name message_count consumer_count) = true
synchronous (bind deprecated name exchange routing_key no_wait arguments) = not (get no_wait 0)
synchronous bind_ok = true
synchronous (purge deprecated name no_wait) = not (get no_wait 0)
synchronous (purge_ok message_count) = true
synchronous (delete deprecated name bools) = not (get bools 2)
synchronous (delete_ok message_count) = true
synchronous (unbind deprecated name exchange routing_key arguments) = true
synchronous unbind_ok = true

-- The constructors from a `ReceivedFrame` read the fields in order.
unfoldable pub read_declare : Reader QueueMethod
read_declare = next_int16 >>= λ deprecated. next_short_string >>= λ name. next_uint8 >>= λ bools.
    read_table >>= λ arguments. pure (declare deprecated name bools arguments)

unfoldable pub read_declare_ok : Reader QueueMethod
read_declare_ok = next_short_string >>= λ name. next_int32 >>= λ message_count.
    next_int32 >>= λ consumer_count. pure (declare_ok name message_count consumer_count)

unfoldable pub read_bind : Reader QueueMethod
read_bind = next_uint16 >>= λ deprecated. next_short_string >>= λ name.
    next_short_string >>= λ exchange. next_short_string >>= λ routing_key. next_uint8 >>= λ no_wait.
    read_table >>= λ arguments. pure (bind deprecated name exchange routing_key no_wait arguments)

unfoldable pub read_purge : Reader QueueMethod
read_purge = next_int16 >>= λ deprecated.
    next_short_string >>= λ name. next_uint8 >>= λ no_wait. pure (purge deprecated name no_wait)

unfoldable pub read_purge_ok : Reader QueueMethod
read_purge_ok = next_int32 >>= λ message_count. pure (purge_ok message_count)

unfoldable pub read_delete : Reader QueueMethod
read_delete = next_int16 >>= λ deprecated.
    next_short_string >>= λ name. next_uint8 >>= λ bools. pure (delete deprecated name bools)

unfoldable pub read_delete_ok : Reader QueueMethod
read_delete_ok = next_int32 >>= λ message_count. pure (delete_ok message_count)

unfoldable pub read_unbind : Reader QueueMethod
read_unbind = next_int16 >>= λ deprecated. next_short_string >>= λ name.
    next_short_string >>= λ exchange. next_short_string >>= λ routing_key.
    read_table >>= λ arguments. pure (unbind deprecated name exchange routing_key arguments)

-- The method id selects the class.
unfoldable pub read_method : Reader QueueMethod
unfolding read_declare read_declare_ok read_bind read_purge read_purge_ok read_delete read_delete_ok
    read_unbind
read_method = next_uint16 >>= λ id.
    if id == 10
    then read_declare
    else if id == 11
    then read_declare_ok
    else if id == 20
    then read_bind
    else if id == 21
    then pure bind_ok
    else if id == 30
    then read_purge
    else if id == 31
    then read_purge_ok
    else if id == 40
    then read_delete
    else if id == 41
    then read_delete_ok
    else if id == 50
    then read_unbind
    else if id == 51
    then pure unbind_ok
    else throw (unrecognized_method 50 id)

-- The values that the class can hold and that its frame can carry.
abbrev pub IsValid : QueueMethod → Type 0
IsValid (declare deprecated name bools arguments) =
    (InWord (2 ^ 16) deprecated)
    × (length name < 2 ^ 8)
    × (bools < 2 ^ 8)
    × (EntriesTyped arguments × IsEncodable (table arguments))
IsValid (declare_ok name message_count consumer_count) =
    (length name < 2 ^ 8) × (InWord (2 ^ 32) message_count) × (InWord (2 ^ 32) consumer_count)
IsValid (bind deprecated name exchange routing_key no_wait arguments) =
    (deprecated < 2 ^ 16)
    × (length name < 2 ^ 8)
    × (length exchange < 2 ^ 8)
    × (length routing_key < 2 ^ 8)
    × (no_wait < 2 ^ 8)
    × (EntriesTyped arguments × IsEncodable (table arguments))
IsValid bind_ok = Unit {0}
IsValid (purge deprecated name no_wait) =
    (InWord (2 ^ 16) deprecated) × (length name < 2 ^ 8) × (no_wait < 2 ^ 8)
IsValid (purge_ok message_count) = InWord (2 ^ 32) message_count
IsValid (delete deprecated name bools) =
    (InWord (2 ^ 16) deprecated) × (length name < 2 ^ 8) × (bools < 2 ^ 8)
IsValid (delete_ok message_count) = InWord (2 ^ 32) message_count
IsValid (unbind deprecated name exchange routing_key arguments) =
    (InWord (2 ^ 16) deprecated)
    × (length name < 2 ^ 8)
    × (length exchange < 2 ^ 8)
    × (length routing_key < 2 ^ 8)
    × (EntriesTyped arguments × IsEncodable (table arguments))
IsValid unbind_ok = Unit {0}

abbrev pub IsWritten : QueueMethod → Type 0
IsWritten m = Unit {0}
