-- ===== src/Wire.antt =====
-- include/amqpcpp/inbuffer.h, src/inbuffer.cpp, src/buffercheck.h and include/amqpcpp/outbuffer.h:
-- reading and writing the primitive values of the protocol. A byte is a number below 256, and a
-- `size_t` is 64 bits wide.
pub mod Reads
pub mod Primitives
use amqp_cpp.Base.{
  ℕ, zero, suc, ◌+◌, ◌-◌, ◌*◌, ◌/◌, ◌%◌, ◌^◌, ◌≤◌, ◌<◌, ◌≡◌, List, [], ◌∷◌, ◌++◌, length, take,
  drop, leb, if◌then◌else◌,
}
use amqp_cpp.Base.Int.{ℤ, to_word, of_word}

-- The exceptions that parsing throws; the texts of `ProtocolException` as constructors.
pub data Exception : Type 0 where
  out_of_range frame_size_exceeded invalid_end_of_frame : Exception
  unrecognized_type unimplemented_type : ℕ → Exception
  unrecognized_class unrecognized_header_class : ℕ → Exception
  unrecognized_method : ℕ → ℕ → Exception

-- `stuck` is no value of the program: a loop of the model ran out of fuel.
pub data Result {ℓ} (A : Type ℓ) : Type ℓ where
  ok : A → Result A
  err : Exception → Result A
  stuck : Result A

-- `_buffer` by its bytes, and `_skip`.
pub record InBuffer : Type 0 where
  pub buffer : List ℕ
  pub skip : ℕ

abbrev pub Reader {ℓ} : Type ℓ → Type ℓ
Reader A = InBuffer → Result (A × InBuffer)

abbrev pub and_then {ℓ κ} :
    {A : Type ℓ} {B : Type κ} → Result (A × InBuffer) → (A → Reader B) → Result (B × InBuffer)
and_then (ok (a, b')) f = f a b'
and_then (err e) f = err e
and_then stuck f = stuck

infixl 5 ◌>>=◌ ◌>>◌
abbrev pub ◌>>=◌ {ℓ κ} : {A : Type ℓ} {B : Type κ} → Reader A → (A → Reader B) → Reader B
◌>>=◌ m f b = and_then (m b) f

abbrev pub ◌>>◌ {ℓ κ} : {A : Type ℓ} {B : Type κ} → Reader A → Reader B → Reader B
m >> k = m >>= λ _. k

abbrev pub pure {ℓ} : {A : Type ℓ} → A → Reader A
pure a b = ok (a, b)

abbrev pub throw {ℓ} : {A : Type ℓ} → Exception → Reader A
throw e b = err e

-- `_buffer.size() - _skip`, as a `size_t`.
unfoldable pub unread : InBuffer → ℕ
unread b = (length b.buffer + 2 ^ 64 - b.skip) % 2 ^ 64

-- The `BufferCheck` that stands in front of each read throws, or advances `_skip` by `size` when
-- the read returns.
unfoldable pub buffer_check : ℕ → Reader (List ℕ) → Reader (List ℕ)
unfolding unread
buffer_check size read b =
    if leb size (unread b)
    then elim (read b) [
      | ok (a, b') ↦ ok (a, record b' { skip = b'.skip + size % 2 ^ 32 })
      | err e ↦ err e
      | stuck ↦ stuck
    ]
    else err out_of_range

-- `nextData`, and the bytes that the other reads copy out of the buffer.
unfoldable pub next_data : ℕ → Reader (List ℕ)
unfolding buffer_check
next_data size = buffer_check size (λ b. ok (take size (drop b.skip b.buffer), b))

-- Network byte order: `k` bytes, the highest first.
unfoldable pub to_be : ℕ → ℕ → List ℕ
to_be zero v = []
to_be (suc k) v = to_be k (v / 256) ++ (v % 256 ∷ [])

unfoldable pub from_be : ℕ → List ℕ → ℕ
from_be acc [] = acc
from_be acc (b ∷ bs) = from_be (acc * 256 + b) bs

unfoldable pub next_be : ℕ → Reader ℕ
unfolding next_data from_be
next_be k = do bs ← next_data k; pure (from_be 0 bs)

unfoldable pub next_uint8 : Reader ℕ
unfolding next_be
next_uint8 = next_be 1

unfoldable pub next_uint16 : Reader ℕ
unfolding next_be
next_uint16 = next_be 2

unfoldable pub next_uint32 : Reader ℕ
unfolding next_be
next_uint32 = next_be 4

unfoldable pub next_uint64 : Reader ℕ
unfolding next_be
next_uint64 = next_be 8

unfoldable pub next_int8 : Reader ℤ
unfolding next_be
next_int8 = do v ← next_be 1; pure (of_word (2 ^ 8) v)

unfoldable pub next_int16 : Reader ℤ
unfolding next_be
next_int16 = do v ← next_be 2; pure (of_word (2 ^ 16) v)

unfoldable pub next_int32 : Reader ℤ
unfolding next_be
next_int32 = do v ← next_be 4; pure (of_word (2 ^ 32) v)

unfoldable pub next_int64 : Reader ℤ
unfolding next_be
next_int64 = do v ← next_be 8; pure (of_word (2 ^ 64) v)

-- A float or a double is the bytes of its object representation, copied as they stand.
unfoldable pub next_float : Reader (List ℕ)
unfolding next_data
next_float = next_data 4

unfoldable pub next_double : Reader (List ℕ)
unfolding next_data
next_double = next_data 8

-- What each `OutBuffer::add` appends.
unfoldable pub add_uint8 : ℕ → List ℕ
unfolding to_be
add_uint8 v = to_be 1 v

unfoldable pub add_uint16 : ℕ → List ℕ
unfolding to_be
add_uint16 v = to_be 2 v

unfoldable pub add_uint32 : ℕ → List ℕ
unfolding to_be
add_uint32 v = to_be 4 v

unfoldable pub add_uint64 : ℕ → List ℕ
unfolding to_be
add_uint64 v = to_be 8 v

unfoldable pub add_int8 : ℤ → List ℕ
unfolding to_be
add_int8 v = to_be 1 (to_word (2 ^ 8) v)

unfoldable pub add_int16 : ℤ → List ℕ
unfolding to_be
add_int16 v = to_be 2 (to_word (2 ^ 16) v)

unfoldable pub add_int32 : ℤ → List ℕ
unfolding to_be
add_int32 v = to_be 4 (to_word (2 ^ 32) v)

unfoldable pub add_int64 : ℤ → List ℕ
unfolding to_be
add_int64 v = to_be 8 (to_word (2 ^ 64) v)

unfoldable pub add_float : List ℕ → List ℕ
add_float bytes = bytes

unfoldable pub add_double : List ℕ → List ℕ
add_double bytes = bytes

unfoldable pub add_string : List ℕ → List ℕ
add_string bytes = bytes
