-- ===== src/Frame/Connection.antt =====
-- The connection methods: src/connectionframe.h, the frame class of each method, src/connection*frame.h, and
-- `ReceivedFrame::processConnectionFrame` in src/receivedframe.cpp as far as it reads the frame.
pub mod RoundTrip
use amqp_cpp.Base.{
  ℕ, ◌+◌, ◌%◌, ◌^◌, ◌<◌, ◌≡◌, Bool, true, false, not, ◌==◌, if◌then◌else◌, List, [], ◌++◌, length,
}
use amqp_cpp.Base.Int.{ℤ, InWord}
use amqp_cpp.Wire.{
  Reader, pure, throw, ◌>>=◌, ◌>>◌, unrecognized_method, add_uint8, add_uint16, add_uint32,
  add_uint64, next_uint8, next_uint16, next_uint32, next_uint64, add_int8, add_int16, add_int32,
  add_int64, next_int8, next_int16, next_int32, next_int64,
}
use amqp_cpp.Field.{FieldMap, table, table_size, fill_table, fill_short_string, fill_long_string}
use amqp_cpp.Field.BooleanSet.{get}
use amqp_cpp.Field.Size.{EntriesTyped}
use amqp_cpp.Field.RoundTrip.{IsEncodable}
use amqp_cpp.Field.Decode.{next_short_string, next_long_string, read_table}

-- A constructor for each frame class, with the fields of the class; a `BooleanSet` is its byte.
pub data ConnectionMethod : Type 0 where
  start : ℕ → ℕ → FieldMap → List ℕ → List ℕ → ConnectionMethod
  start_ok : FieldMap → List ℕ → List ℕ → List ℕ → ConnectionMethod
  secure : List ℕ → ConnectionMethod
  secure_ok : List ℕ → ConnectionMethod
  tune : ℕ → ℕ → ℕ → ConnectionMethod
  tune_ok : ℕ → ℕ → ℕ → ConnectionMethod
  connection_open : List ℕ → List ℕ → ℕ → ConnectionMethod
  open_ok : List ℕ → ConnectionMethod
  close : ℕ → List ℕ → ℕ → ℕ → ConnectionMethod
  close_ok : ConnectionMethod
  block : List ℕ → ConnectionMethod
  unblock : ConnectionMethod

unfoldable pub method_id : ConnectionMethod → ℕ
method_id (start major minor properties mechanisms locales) = 10
method_id (start_ok properties mechanism response locale) = 11
method_id (secure challenge) = 20
method_id (secure_ok response) = 21
method_id (tune channels frame_max heartbeat) = 30
method_id (tune_ok channels frame_max heartbeat) = 31
method_id (connection_open vhost deprecated_capabilities deprecated_insist) = 40
method_id (open_ok deprecated_known_hosts) = 41
method_id (close code text failing_class failing_method) = 50
method_id close_ok = 51
method_id (block reason) = 60
method_id unblock = 61

-- What the constructor of the class hands down for the size of its arguments.
unfoldable pub arguments_size : ConnectionMethod → ℕ
arguments_size (start major minor properties mechanisms locales) =
    (table_size properties + length mechanisms + length locales + 10) % 2 ^ 32
arguments_size (start_ok properties mechanism response locale) =
    (table_size properties + length mechanism + length response + length locale + 6) % 2 ^ 32
arguments_size (secure challenge) = (length challenge + 4) % 2 ^ 32
arguments_size (secure_ok response) = (length response + 4) % 2 ^ 32
arguments_size (tune channels frame_max heartbeat) = 8
arguments_size (tune_ok channels frame_max heartbeat) = 8
arguments_size (connection_open vhost deprecated_capabilities deprecated_insist) =
    (length vhost + 3) % 2 ^ 32
arguments_size (open_ok deprecated_known_hosts) = 1
arguments_size (close code text failing_class failing_method) = (length text + 7) % 2 ^ 32
arguments_size close_ok = 0
arguments_size (block reason) = (length reason + 1) % 2 ^ 32
arguments_size unblock = 0

-- `fill`, behind the class and the method.
unfoldable pub fill_arguments : ConnectionMethod → List ℕ
fill_arguments (start major minor properties mechanisms locales) =
    add_uint8 major
    ++ (add_uint8 minor
        ++ (fill_table properties ++ (fill_long_string mechanisms ++ fill_long_string locales)))
fill_arguments (start_ok properties mechanism response locale) =
    fill_table properties
    ++ (fill_short_string mechanism ++ (fill_long_string response ++ fill_short_string locale))
fill_arguments (secure challenge) = fill_long_string challenge
fill_arguments (secure_ok response) = fill_long_string response
fill_arguments (tune channels frame_max heartbeat) =
    add_uint16 channels ++ (add_uint32 frame_max ++ add_uint16 heartbeat)
fill_arguments (tune_ok channels frame_max heartbeat) =
    add_uint16 channels ++ (add_uint32 frame_max ++ add_uint16 heartbeat)
fill_arguments (connection_open vhost deprecated_capabilities deprecated_insist) =
    fill_short_string vhost
    ++ (fill_short_string deprecated_capabilities ++ add_uint8 deprecated_insist)
fill_arguments (open_ok deprecated_known_hosts) = fill_short_string deprecated_known_hosts
fill_arguments (close code text failing_class failing_method) =
    add_uint16 code
    ++ (fill_short_string text ++ (add_uint16 failing_class ++ add_uint16 failing_method))
fill_arguments close_ok = []
fill_arguments (block reason) = fill_short_string reason
fill_arguments unblock = []

-- Whether the channel waits for an answer before it sends more.
unfoldable pub synchronous : ConnectionMethod → Bool
synchronous (start major minor properties mechanisms locales) = true
synchronous (start_ok properties mechanism response locale) = true
synchronous (secure challenge) = true
synchronous (secure_ok response) = true
synchronous (tune channels frame_max heartbeat) = true
synchronous (tune_ok channels frame_max heartbeat) = true
synchronous (connection_open vhost deprecated_capabilities deprecated_insist) = true
synchronous (open_ok deprecated_known_hosts) = true
synchronous (close code text failing_class failing_method) = true
synchronous close_ok = true
synchronous (block reason) = true
synchronous unblock = true

-- The constructors from a `ReceivedFrame` read the fields in order.
unfoldable pub read_start : Reader ConnectionMethod
read_start = next_uint8 >>= λ major. next_uint8 >>= λ minor. read_table >>= λ properties.
    next_long_string >>= λ mechanisms.
    next_long_string >>= λ locales. pure (start major minor properties mechanisms locales)

unfoldable pub read_start_ok : Reader ConnectionMethod
read_start_ok = read_table >>= λ properties. next_short_string >>= λ mechanism.
    next_long_string >>= λ response.
    next_short_string >>= λ locale. pure (start_ok properties mechanism response locale)

unfoldable pub read_secure : Reader ConnectionMethod
read_secure = next_long_string >>= λ challenge. pure (secure challenge)

unfoldable pub read_secure_ok : Reader ConnectionMethod
read_secure_ok = next_long_string >>= λ response. pure (secure_ok response)

unfoldable pub read_tune : Reader ConnectionMethod
read_tune = next_uint16 >>= λ channels. next_uint32 >>= λ frame_max.
    next_uint16 >>= λ heartbeat. pure (tune channels frame_max heartbeat)

unfoldable pub read_tune_ok : Reader ConnectionMethod
read_tune_ok = next_uint16 >>= λ channels. next_uint32 >>= λ frame_max.
    next_uint16 >>= λ heartbeat. pure (tune_ok channels frame_max heartbeat)

unfoldable pub read_connection_open : Reader ConnectionMethod
read_connection_open = next_short_string >>= λ vhost.
    next_short_string >>= λ deprecated_capabilities. next_uint8 >>= λ deprecated_insist.
    pure (connection_open vhost deprecated_capabilities deprecated_insist)

unfoldable pub read_open_ok : Reader ConnectionMethod
read_open_ok = next_short_string >>= λ deprecated_known_hosts. pure (open_ok deprecated_known_hosts)

unfoldable pub read_close : Reader ConnectionMethod
read_close = next_uint16 >>= λ code. next_short_string >>= λ text. next_uint16 >>= λ failing_class.
    next_uint16 >>= λ failing_method. pure (close code text failing_class failing_method)

unfoldable pub read_block : Reader ConnectionMethod
read_block = next_short_string >>= λ reason. pure (block reason)

-- The method id selects the class.
unfoldable pub read_method : Reader ConnectionMethod
unfolding read_start read_start_ok read_secure read_secure_ok read_tune read_tune_ok
    read_connection_open read_open_ok read_close read_block
read_method = next_uint16 >>= λ id.
    if id == 10
    then read_start
    else if id == 11
    then read_start_ok
    else if id == 20
    then read_secure
    else if id == 21
    then read_secure_ok
    else if id == 30
    then read_tune
    else if id == 31
    then read_tune_ok
    else if id == 40
    then read_connection_open
    else if id == 41
    then read_open_ok
    else if id == 50
    then read_close
    else if id == 51
    then pure close_ok
    else if id == 60
    then read_block
    else if id == 61
    then pure unblock
    else throw (unrecognized_method 10 id)

-- The values that the class can hold and that its frame can carry.
abbrev pub IsValid : ConnectionMethod → Type 0
IsValid (start major minor properties mechanisms locales) =
    (major < 2 ^ 8)
    × (minor < 2 ^ 8)
    × (EntriesTyped properties × IsEncodable (table properties))
    × (length mechanisms < 2 ^ 32)
    × (length locales < 2 ^ 32)
IsValid (start_ok properties mechanism response locale) =
    (EntriesTyped properties × IsEncodable (table properties))
    × (length mechanism < 2 ^ 8)
    × (length response < 2 ^ 32)
    × (length locale < 2 ^ 8)
IsValid (secure challenge) = length challenge < 2 ^ 32
IsValid (secure_ok response) = length response < 2 ^ 32
IsValid (tune channels frame_max heartbeat) =
    (channels < 2 ^ 16) × (frame_max < 2 ^ 32) × (heartbeat < 2 ^ 16)
IsValid (tune_ok channels frame_max heartbeat) =
    (channels < 2 ^ 16) × (frame_max < 2 ^ 32) × (heartbeat < 2 ^ 16)
IsValid (connection_open vhost deprecated_capabilities deprecated_insist) =
    (length vhost < 2 ^ 8) × (length deprecated_capabilities < 2 ^ 8) × (deprecated_insist < 2 ^ 8)
IsValid (open_ok deprecated_known_hosts) = length deprecated_known_hosts < 2 ^ 8
IsValid (close code text failing_class failing_method) =
    (code < 2 ^ 16) × (length text < 2 ^ 8) × (failing_class < 2 ^ 16) × (failing_method < 2 ^ 16)
IsValid close_ok = Unit {0}
IsValid (block reason) = length reason < 2 ^ 8
IsValid unblock = Unit {0}

-- The deprecated strings are empty in every frame that the constructors for writing make.
abbrev pub IsWritten : ConnectionMethod → Type 0
IsWritten (connection_open vhost deprecated_capabilities deprecated_insist) =
    deprecated_capabilities ≡ []
IsWritten (open_ok deprecated_known_hosts) = deprecated_known_hosts ≡ []
IsWritten (start major minor properties mechanisms locales) = Unit {0}
IsWritten (start_ok properties mechanism response locale) = Unit {0}
IsWritten (secure challenge) = Unit {0}
IsWritten (secure_ok response) = Unit {0}
IsWritten (tune channels frame_max heartbeat) = Unit {0}
IsWritten (tune_ok channels frame_max heartbeat) = Unit {0}
IsWritten (close code text failing_class failing_method) = Unit {0}
IsWritten close_ok = Unit {0}
IsWritten (block reason) = Unit {0}
IsWritten unblock = Unit {0}
