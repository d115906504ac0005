-- ===== src/Wire/Primitives.antt =====
-- The primitives of src/inbuffer.cpp against those of include/amqpcpp/outbuffer.h.
use mathlib.Core.Path.{subst}
use native.Mathlib.Nat.{pow-suc}
use amqp_cpp.Base.{
  ℕ, zero, suc, ◌+◌, ◌*◌, ◌/◌, ◌%◌, ◌^◌, ◌<◌, ◌≡◌, refl, List, [], ◌∷◌, ◌++◌, length, length-append,
  arith,
}
use amqp_cpp.Base.Int.{ℤ, InWord, to_word, of_word, to_word-lt, of_word-to_word}
use amqp_cpp.Wire.{
  to_be, from_be, next_data, next_be, next_uint8, next_uint16, next_uint32, next_uint64, next_int8,
  next_int16, next_int32, next_int64, next_float, next_double, add_uint8, add_uint16, add_uint32,
  add_uint64, add_int8, add_int16, add_int32, add_int64, add_float, add_double,
}
use amqp_cpp.Wire.Reads.{Reads, Reads-map, Reads-cast, Reads-next_data}

pub length-to_be : (k v : ℕ) → length (to_be k v) ≡ k
unfolding to_be
length-to_be zero v = refl
length-to_be (suc k) v =
    omega (arith, length-append (to_be k (v / 256)) (v % 256 ∷ []), length-to_be k (v / 256))

from_be-append :
    (acc : ℕ) (bs : List ℕ) (b : ℕ) → from_be acc (bs ++ (b ∷ [])) ≡ from_be acc bs * 256 + b
unfolding from_be
from_be-append acc [] b = refl
from_be-append acc (c ∷ bs) b = from_be-append (acc * 256 + c) bs b

-- A number of `k` bytes is read back from its bytes in network order.
pub from_be-to_be : (k v : ℕ) → v < 256 ^ k → from_be 0 (to_be k v) ≡ v
unfolding to_be from_be
from_be-to_be zero v h = omega arith
from_be-to_be (suc k) v h = omega (
  arith,
  from_be-append 0 (to_be k (v / 256)) (v % 256),
  from_be-to_be k (v / 256) (omega (arith, pow-suc 256 k)),
)

Reads-next_be : (k v : ℕ) → k < 2 ^ 32 → v < 256 ^ k → Reads (next_be k) (to_be k v) v
unfolding next_be
Reads-next_be k v hk hv = Reads-cast refl (from_be-to_be k v hv) (
    Reads-map (from_be 0) (
      subst (λ n. Reads (next_data n) (to_be k v) (to_be k v)) (length-to_be k v)
        (Reads-next_data (to_be k v) (omega (arith, length-to_be k v)))))

pub Reads-uint8 : (v : ℕ) → v < 2 ^ 8 → Reads next_uint8 (add_uint8 v) v
unfolding next_uint8 add_uint8
Reads-uint8 v h = Reads-next_be 1 v (omega arith) (omega arith)

pub Reads-uint16 : (v : ℕ) → v < 2 ^ 16 → Reads next_uint16 (add_uint16 v) v
unfolding next_uint16 add_uint16
Reads-uint16 v h = Reads-next_be 2 v (omega arith) (omega arith)

pub Reads-uint32 : (v : ℕ) → v < 2 ^ 32 → Reads next_uint32 (add_uint32 v) v
unfolding next_uint32 add_uint32
Reads-uint32 v h = Reads-next_be 4 v (omega arith) (omega arith)

pub Reads-uint64 : (v : ℕ) → v < 2 ^ 64 → Reads next_uint64 (add_uint64 v) v
unfolding next_uint64 add_uint64
Reads-uint64 v h = Reads-next_be 8 v (omega arith) (omega arith)

pub Reads-int8 : (z : ℤ) → InWord (2 ^ 8) z → Reads next_int8 (add_int8 z) z
unfolding next_int8 add_int8
Reads-int8 z h = Reads-cast refl (of_word-to_word (2 ^ 7) z (omega arith) h) (
    Reads-map (of_word (2 ^ 8))
      (Reads-next_be 1 (to_word (2 ^ 8) z) (omega arith) (to_word-lt (2 ^ 8) z (omega arith))))

pub Reads-int16 : (z : ℤ) → InWord (2 ^ 16) z → Reads next_int16 (add_int16 z) z
unfolding next_int16 add_int16
Reads-int16 z h = Reads-cast refl (of_word-to_word (2 ^ 15) z (omega arith) h) (
    Reads-map (of_word (2 ^ 16))
      (Reads-next_be 2 (to_word (2 ^ 16) z) (omega arith) (to_word-lt (2 ^ 16) z (omega arith))))

pub Reads-int32 : (z : ℤ) → InWord (2 ^ 32) z → Reads next_int32 (add_int32 z) z
unfolding next_int32 add_int32
Reads-int32 z h = Reads-cast refl (of_word-to_word (2 ^ 31) z (omega arith) h) (
    Reads-map (of_word (2 ^ 32))
      (Reads-next_be 4 (to_word (2 ^ 32) z) (omega arith) (to_word-lt (2 ^ 32) z (omega arith))))

pub Reads-int64 : (z : ℤ) → InWord (2 ^ 64) z → Reads next_int64 (add_int64 z) z
unfolding next_int64 add_int64
Reads-int64 z h = Reads-cast refl (of_word-to_word (2 ^ 63) z (omega arith) h) (
    Reads-map (of_word (2 ^ 64))
      (Reads-next_be 8 (to_word (2 ^ 64) z) (omega arith) (to_word-lt (2 ^ 64) z (omega arith))))

pub Reads-float : (bytes : List ℕ) → length bytes ≡ 4 → Reads next_float (add_float bytes) bytes
unfolding next_float add_float
Reads-float bytes h =
    subst (λ n. Reads (next_data n) bytes bytes) h (Reads-next_data bytes (omega arith))

pub Reads-double : (bytes : List ℕ) → length bytes ≡ 8 → Reads next_double (add_double bytes) bytes
unfolding next_double add_double
Reads-double bytes h =
    subst (λ n. Reads (next_data n) bytes bytes) h (Reads-next_data bytes (omega arith))

pub length-add_uint8 : (v : ℕ) → length (add_uint8 v) ≡ 1
unfolding add_uint8
length-add_uint8 v = length-to_be 1 v

pub length-add_uint16 : (v : ℕ) → length (add_uint16 v) ≡ 2
unfolding add_uint16
length-add_uint16 v = length-to_be 2 v

pub length-add_uint32 : (v : ℕ) → length (add_uint32 v) ≡ 4
unfolding add_uint32
length-add_uint32 v = length-to_be 4 v

pub length-add_uint64 : (v : ℕ) → length (add_uint64 v) ≡ 8
unfolding add_uint64
length-add_uint64 v = length-to_be 8 v

pub length-add_int8 : (z : ℤ) → length (add_int8 z) ≡ 1
unfolding add_int8
length-add_int8 z = length-to_be 1 (to_word (2 ^ 8) z)

pub length-add_int16 : (z : ℤ) → length (add_int16 z) ≡ 2
unfolding add_int16
length-add_int16 z = length-to_be 2 (to_word (2 ^ 16) z)

pub length-add_int32 : (z : ℤ) → length (add_int32 z) ≡ 4
unfolding add_int32
length-add_int32 z = length-to_be 4 (to_word (2 ^ 32) z)

pub length-add_int64 : (z : ℤ) → length (add_int64 z) ≡ 8
unfolding add_int64
length-add_int64 z = length-to_be 8 (to_word (2 ^ 64) z)
