-- ===== src/Frame/Basic.antt =====
-- The basic methods: src/basicframe.h, the frame class of each method, src/basic*frame.h, and
-- `ReceivedFrame::processBasicFrame` in src/receivedframe.cpp as far as it reads the frame.
pub mod RoundTrip
use amqp_cpp.Base.{
  ℕ, ◌+◌, ◌%◌, ◌^◌, ◌<◌, ◌≡◌, Bool, true, false, not, ◌==◌, if◌then◌else◌, List, [], ◌++◌, length,
}
use amqp_cpp.Base.Int.{ℤ, InWord}
use amqp_cpp.Wire.{
  Reader, pure, throw, ◌>>=◌, ◌>>◌, unrecognized_method, add_uint8, add_uint16, add_uint32,
  add_uint64, next_uint8, next_uint16, next_uint32, next_uint64, add_int8, add_int16, add_int32,
  add_int64, next_int8, next_int16, next_int32, next_int64,
}
use amqp_cpp.Field.{FieldMap, table, table_size, fill_table, fill_short_string, fill_long_string}
use amqp_cpp.Field.BooleanSet.{get}
use amqp_cpp.Field.Size.{EntriesTyped}
use amqp_cpp.Field.RoundTrip.{IsEncodable}
use amqp_cpp.Field.Decode.{next_short_string, next_long_string, read_table}

-- A constructor for each frame class, with the fields of the class; a `BooleanSet` is its byte.
pub data BasicMethod : Type 0 where
  qos : ℤ → ℤ → ℕ → BasicMethod
  qos_ok : BasicMethod
  consume : ℕ → List ℕ → List ℕ → ℕ → FieldMap → BasicMethod
  consume_ok : List ℕ → BasicMethod
  cancel : List ℕ → ℕ → BasicMethod
  cancel_ok : List ℕ → BasicMethod
  publish : ℤ → List ℕ → List ℕ → ℕ → BasicMethod
  return : ℤ → List ℕ → List ℕ → List ℕ → BasicMethod
  deliver : List ℕ → ℕ → ℕ → List ℕ → List ℕ → BasicMethod
  get_message : ℕ → List ℕ → ℕ → BasicMethod
  get_ok : ℕ → ℕ → List ℕ → List ℕ → ℕ → BasicMethod
  get_empty : List ℕ → BasicMethod
  ack : ℕ → ℕ → BasicMethod
  reject : ℤ → ℕ → BasicMethod
  recover_async : ℕ → BasicMethod
  recover : ℕ → BasicMethod
  recover_ok : BasicMethod
  nack : ℕ → ℕ → BasicMethod

unfoldable pub method_id : BasicMethod → ℕ
method_id (qos prefetch_size prefetch_count global) = 10
method_id qos_ok = 11
method_id (consume deprecated queue_name consumer_tag bools filter) = 20
method_id (consume_ok consumer_tag) = 21
method_id (cancel consumer_tag no_wait) = 30
method_id (cancel_ok consumer_tag) = 31
method_id (publish deprecated exchange routing_key bools) = 40
method_id (return reply_code reply_text exchange routing_key) = 50
method_id (deliver consumer_tag delivery_tag redelivered exchange routing_key) = 60
method_id (get_message deprecated queue no_ack) = 70
method_id (get_ok delivery_tag redelivered exchange routing_key message_count) = 71
method_id (get_empty deprecated) = 72
method_id (ack delivery_tag multiple) = 80
method_id (reject delivery_tag requeue) = 90
method_id (recover_async requeue) = 100
method_id (recover requeue) = 110
method_id recover_ok = 111
method_id (nack delivery_tag bits) = 120

-- What the constructor of the class hands down for the size of its arguments.
unfoldable pub arguments_size : BasicMethod → ℕ
arguments_size (qos prefetch_size prefetch_count global) = 7
arguments_size qos_ok = 0
arguments_size (consume deprecated queue_name consumer_tag bools filter) =
    (length queue_name + length consumer_tag + 5 + table_size filter) % 2 ^ 32
arguments_size (consume_ok consumer_tag) = (length consumer_tag + 1) % 2 ^ 32
arguments_size (cancel consumer_tag no_wait) = (length consumer_tag + 2) % 2 ^ 32
arguments_size (cancel_ok consumer_tag) = (length consumer_tag + 1) % 2 ^ 32
arguments_size (publish deprecated exchange routing_key bools) =
    (length exchange + length routing_key + 5) % 2 ^ 32
arguments_size (return reply_code reply_text exchange routing_key) =
    (length reply_text + length exchange + length routing_key + 5) % 2 ^ 32
arguments_size (deliver consumer_tag delivery_tag redelivered exchange routing_key) =
    (length consumer_tag + length exchange + length routing_key + 12) % 2 ^ 32
arguments_size (get_message deprecated queue no_ack) = (length queue + 4) % 2 ^ 32
arguments_size (get_ok delivery_tag redelivered exchange routing_key message_count) =
    (length exchange + length routing_key + 15) % 2 ^ 32
arguments_size (get_empty deprecated) = 1
arguments_size (ack delivery_tag multiple) = 9
arguments_size (reject delivery_tag requeue) = 9
arguments_size (recover_async requeue) = 1
arguments_size (recover requeue) = 1
arguments_size recover_ok = 0
arguments_size (nack delivery_tag bits) = 9

-- `fill`, behind the class and the method.
unfoldable pub fill_arguments : BasicMethod → List ℕ
fill_arguments (qos prefetch_size prefetch_count global) =
    add_int32 prefetch_size ++ (add_int16 prefetch_count ++ add_uint8 global)
fill_arguments qos_ok = []
fill_arguments (consume deprecated queue_name consumer_tag bools filter) =
    add_uint16 deprecated
    ++ (fill_short_string queue_name
        ++ (fill_short_string consumer_tag ++ (add_uint8 bools ++ fill_table filter)))
fill_arguments (consume_ok consumer_tag) = fill_short_string consumer_tag
fill_arguments (cancel consumer_tag no_wait) = fill_short_string consumer_tag ++ add_uint8 no_wait
fill_arguments (cancel_ok consumer_tag) = fill_short_string consumer_tag
fill_arguments (publish deprecated exchange routing_key bools) =
    add_int16 deprecated
    ++ (fill_short_string exchange ++ (fill_short_string routing_key ++ add_uint8 bools))
fill_arguments (return reply_code reply_text exchange routing_key) =
    add_int16 reply_code
    ++ (fill_short_string reply_text
        ++ (fill_short_string exchange ++ fill_short_string routing_key))
fill_arguments (deliver consumer_tag delivery_tag redelivered exchange routing_key) =
    fill_short_string consumer_tag
    ++ (add_uint64 delivery_tag
        ++ (add_uint8 redelivered ++ (fill_short_string exchange ++ fill_short_string routing_key)))
fill_arguments (get_message deprecated queue no_ack) =
    add_uint16 deprecated ++ (fill_short_string queue ++ add_uint8 no_ack)
fill_arguments (get_ok delivery_tag redelivered exchange routing_key message_count) =
    add_uint64 delivery_tag
    ++ (add_uint8 redelivered
        ++ (fill_short_string exchange
            ++ (fill_short_string routing_key ++ add_uint32 message_count)))
fill_arguments (get_empty deprecated) = fill_short_string deprecated
fill_arguments (ack delivery_tag multiple) = add_uint64 delivery_tag ++ add_uint8 multiple
fill_arguments (reject delivery_tag requeue) = add_int64 delivery_tag ++ add_uint8 requeue
fill_arguments (recover_async requeue) = add_uint8 requeue
fill_arguments (recover requeue) = add_uint8 requeue
fill_arguments recover_ok = []
fill_arguments (nack delivery_tag bits) = add_uint64 delivery_tag ++ add_uint8 bits

-- Whether the channel waits for an answer before it sends more.
unfoldable pub synchronous : BasicMethod → Bool
unfolding get
synchronous (qos prefetch_size prefetch_count global) = true
synchronous qos_ok = true
synchronous (consume deprecated queue_name consumer_tag bools filter) = not (get bools 3)
synchronous (consume_ok consumer_tag) = true
synchronous (cancel consumer_tag no_wait) = not (get no_wait 0)
synchronous (cancel_ok consumer_tag) = true
synchronous (publish deprecated exchange routing_key bools) = false
synchronous (return reply_code reply_text exchange routing_key) = false
synchronous (deliver consumer_tag delivery_tag redelivered exchange routing_key) = false
synchronous (get_message deprecated queue no_ack) = true
synchronous (get_ok delivery_tag redelivered exchange routing_key message_count) = true
synchronous (get_empty deprecated) = true
synchronous (ack delivery_tag multiple) = false
synchronous (reject delivery_tag requeue) = false
synchronous (recover_async requeue) = false
synchronous (recover requeue) = false
synchronous recover_ok = true
synchronous (nack delivery_tag bits) = true

-- The constructors from a `ReceivedFrame` read the fields in order.
unfoldable pub read_qos : Reader BasicMethod
read_qos = next_int32 >>= λ prefetch_size. next_int16 >>= λ prefetch_count.
    next_uint8 >>= λ global. pure (qos prefetch_size prefetch_count global)

unfoldable pub read_consume : Reader BasicMethod
read_consume = next_uint16 >>= λ deprecated. next_short_string >>= λ queue_name.
    next_short_string >>= λ consumer_tag. next_uint8 >>= λ bools.
    read_table >>= λ filter. pure (consume deprecated queue_name consumer_tag bools filter)

unfoldable pub read_consume_ok : Reader BasicMethod
read_consume_ok = next_short_string >>= λ consumer_tag. pure (consume_ok consumer_tag)

unfoldable pub read_cancel : Reader BasicMethod
read_cancel = next_short_string >>= λ consumer_tag.
    next_uint8 >>= λ no_wait. pure (cancel consumer_tag no_wait)

unfoldable pub read_cancel_ok : Reader BasicMethod
read_cancel_ok = next_short_string >>= λ consumer_tag. pure (cancel_ok consumer_tag)

unfoldable pub read_publish : Reader BasicMethod
read_publish = next_int16 >>= λ deprecated. next_short_string >>= λ exchange.
    next_short_string >>= λ routing_key.
    next_uint8 >>= λ bools. pure (publish deprecated exchange routing_key bools)

unfoldable pub read_return : Reader BasicMethod
read_return = next_int16 >>= λ reply_code. next_short_string >>= λ reply_text.
    next_short_string >>= λ exchange.
    next_short_string >>= λ routing_key. pure (return reply_code reply_text exchange routing_key)

unfoldable pub read_deliver : Reader BasicMethod
read_deliver = next_short_string >>= λ consumer_tag. next_uint64 >>= λ delivery_tag.
    next_uint8 >>= λ redelivered. next_short_string >>= λ exchange.
    next_short_string >>= λ routing_key.
    pure (deliver consumer_tag delivery_tag redelivered exchange routing_key)

unfoldable pub read_get_message : Reader BasicMethod
read_get_message = next_uint16 >>= λ deprecated. next_short_string >>= λ queue.
    next_uint8 >>= λ no_ack. pure (get_message deprecated queue no_ack)

unfoldable pub read_get_ok : Reader BasicMethod
read_get_ok = next_uint64 >>= λ delivery_tag. next_uint8 >>= λ redelivered.
    next_short_string >>= λ exchange. next_short_string >>= λ routing_key.
    next_uint32 >>= λ message_count.
    pure (get_ok delivery_tag redelivered exchange routing_key message_count)

unfoldable pub read_get_empty : Reader BasicMethod
read_get_empty = next_short_string >>= λ deprecated. pure (get_empty deprecated)

unfoldable pub read_ack : Reader BasicMethod
read_ack =
    next_uint64 >>= λ delivery_tag. next_uint8 >>= λ multiple. pure (ack delivery_tag multiple)

unfoldable pub read_reject : Reader BasicMethod
read_reject =
    next_int64 >>= λ delivery_tag. next_uint8 >>= λ requeue. pure (reject delivery_tag requeue)

unfoldable pub read_recover_async : Reader BasicMethod
read_recover_async = next_uint8 >>= λ requeue. pure (recover_async requeue)

unfoldable pub read_recover : Reader BasicMethod
read_recover = next_uint8 >>= λ requeue. pure (recover requeue)

unfoldable pub read_nack : Reader BasicMethod
read_nack = next_uint64 >>= λ delivery_tag. next_uint8 >>= λ bits. pure (nack delivery_tag bits)

-- The method id selects the class.
unfoldable pub read_method : Reader BasicMethod
unfolding read_qos read_consume read_consume_ok read_cancel read_cancel_ok read_publish read_return
    read_deliver read_get_message read_get_ok read_get_empty read_ack read_reject read_recover_async
    read_recover read_nack
read_method = next_uint16 >>= λ id.
    if id == 10
    then read_qos
    else if id == 11
    then pure qos_ok
    else if id == 20
    then read_consume
    else if id == 21
    then read_consume_ok
    else if id == 30
    then read_cancel
    else if id == 31
    then read_cancel_ok
    else if id == 40
    then read_publish
    else if id == 50
    then read_return
    else if id == 60
    then read_deliver
    else if id == 70
    then read_get_message
    else if id == 71
    then read_get_ok
    else if id == 72
    then read_get_empty
    else if id == 80
    then read_ack
    else if id == 90
    then read_reject
    else if id == 100
    then read_recover_async
    else if id == 110
    then read_recover
    else if id == 111
    then pure recover_ok
    else if id == 120
    then read_nack
    else throw (unrecognized_method 60 id)

-- The values that the class can hold and that its frame can carry.
abbrev pub IsValid : BasicMethod → Type 0
IsValid (qos prefetch_size prefetch_count global) =
    (InWord (2 ^ 32) prefetch_size) × (InWord (2 ^ 16) prefetch_count) × (global < 2 ^ 8)
IsValid qos_ok = Unit {0}
IsValid (consume deprecated queue_name consumer_tag bools filter) =
    (deprecated < 2 ^ 16)
    × (length queue_name < 2 ^ 8)
    × (length consumer_tag < 2 ^ 8)
    × (bools < 2 ^ 8)
    × (EntriesTyped filter × IsEncodable (table filter))
IsValid (consume_ok consumer_tag) = length consumer_tag < 2 ^ 8
IsValid (cancel consumer_tag no_wait) = (length consumer_tag < 2 ^ 8) × (no_wait < 2 ^ 8)
IsValid (cancel_ok consumer_tag) = length consumer_tag < 2 ^ 8
IsValid (publish deprecated exchange routing_key bools) =
    (InWord (2 ^ 16) deprecated)
    × (length exchange < 2 ^ 8)
    × (length routing_key < 2 ^ 8)
    × (bools < 2 ^ 8)
IsValid (return reply_code reply_text exchange routing_key) =
    (InWord (2 ^ 16) reply_code)
    × (length reply_text < 2 ^ 8)
    × (length exchange < 2 ^ 8)
    × (length routing_key < 2 ^ 8)
IsValid (deliver consumer_tag delivery_tag redelivered exchange routing_key) =
    (length consumer_tag < 2 ^ 8)
    × (delivery_tag < 2 ^ 64)
    × (redelivered < 2 ^ 8)
    × (length exchange < 2 ^ 8)
    × (length routing_key < 2 ^ 8)
IsValid (get_message deprecated queue no_ack) =
    (deprecated < 2 ^ 16) × (length queue < 2 ^ 8) × (no_ack < 2 ^ 8)
IsValid (get_ok delivery_tag redelivered exchange routing_key message_count) =
    (delivery_tag < 2 ^ 64)
    × (redelivered < 2 ^ 8)
    × (length exchange < 2 ^ 8)
    × (length routing_key < 2 ^ 8)
    × (message_count < 2 ^ 32)
IsValid (get_empty deprecated) = length deprecated < 2 ^ 8
IsValid (ack delivery_tag multiple) = (delivery_tag < 2 ^ 64) × (multiple < 2 ^ 8)
IsValid (reject delivery_tag requeue) = (InWord (2 ^ 64) delivery_tag) × (requeue < 2 ^ 8)
IsValid (recover_async requeue) = requeue < 2 ^ 8
IsValid (recover requeue) = requeue < 2 ^ 8
IsValid recover_ok = Unit {0}
IsValid (nack delivery_tag bits) = (delivery_tag < 2 ^ 64) × (bits < 2 ^ 8)

-- The deprecated strings are empty in every frame that the constructors for writing make.
abbrev pub IsWritten : BasicMethod → Type 0
IsWritten (get_empty deprecated) = deprecated ≡ []
IsWritten (qos prefetch_size prefetch_count global) = Unit {0}
IsWritten qos_ok = Unit {0}
IsWritten (consume deprecated queue_name consumer_tag bools filter) = Unit {0}
IsWritten (consume_ok consumer_tag) = Unit {0}
IsWritten (cancel consumer_tag no_wait) = Unit {0}
IsWritten (cancel_ok consumer_tag) = Unit {0}
IsWritten (publish deprecated exchange routing_key bools) = Unit {0}
IsWritten (return reply_code reply_text exchange routing_key) = Unit {0}
IsWritten (deliver consumer_tag delivery_tag redelivered exchange routing_key) = Unit {0}
IsWritten (get_message deprecated queue no_ack) = Unit {0}
IsWritten (get_ok delivery_tag redelivered exchange routing_key message_count) = Unit {0}
IsWritten (ack delivery_tag multiple) = Unit {0}
IsWritten (reject delivery_tag requeue) = Unit {0}
IsWritten (recover_async requeue) = Unit {0}
IsWritten (recover requeue) = Unit {0}
IsWritten recover_ok = Unit {0}
IsWritten (nack delivery_tag bits) = Unit {0}
