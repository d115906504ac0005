-- ===== src/Field/Total.antt =====
-- How `Field::decode` of src/field.cpp ends, and the fuel of its model.
use amqp_cpp.Base.{
  ℕ, zero, suc, ◌+◌, ◌-◌, ◌%◌, ◌^◌, ◌≤◌, ◌<◌, ◌≡◌, Bool, true, false, ◌==◌, if◌then◌else◌, length,
  Option, none, some, arith, leb, leb→le, Bool-cases, inl, inr,
}
use amqp_cpp.Wire.{
  InBuffer, Exception, Reader, Result, ok, err, pure, ◌>>=◌, unread, next_data, and_then,
  out_of_range, next_be, from_be, next_uint8, next_uint16, next_uint32, next_uint64, next_int8,
  next_int16, next_int32, next_int64, next_float, next_double,
}
use amqp_cpp.Base.Int.{of_word}
use amqp_cpp.Field.{
  Field, FieldArray, FieldMap, boolean_set, octet, u_octet, short, u_short, long, u_long, long_long,
  u_long_long, float, double, decimal, short_string, long_string, array, timestamp, table,
  void_field, nil, empty,
}
use amqp_cpp.Field.Decode.{
  next_short_string, next_long_string, next_decimal, array_loop, table_loop, next_array, next_table,
  decode_type, decode_fuel, decode, read_table,
}

-- The buffers that the program meets: `_skip` stands within the bytes, and a `size_t` counts them.
pub record IsValid (b : InBuffer) : Type 0 where
  pub within : b.skip ≤ length b.buffer
  pub bounded : length b.buffer < 2 ^ 64

-- The bytes that are not yet read.
abbrev left : InBuffer → ℕ
left b = length b.buffer - b.skip

-- How a read ends: it returns with the buffer valid and at least `used` bytes fewer left, or throws.
pub data Ends {ℓ} {A : Type ℓ} (used : ℕ) (b : InBuffer) : Result (A × InBuffer) → Type ℓ where
  returns :
      (a : A) (b' : InBuffer) → IsValid b' → left b' + used ≤ left b → Ends used b (ok (a, b'))
  throws : (e : Exception) → Ends used b (err e)

-- On every valid buffer with at most `room` bytes left the read ends.
pub record Safe {ℓ} {A : Type ℓ} (used room : ℕ) (p : Reader A) : Type ℓ where
  pub ends : (b : InBuffer) → IsValid b → left b ≤ room → Ends used b (p b)

Safe-pure {ℓ} : {A : Type ℓ} (room : ℕ) (a : A) → Safe 0 room (pure a)
Safe-pure room a = record { ends = λ b v h. returns a b v (omega arith) }

Ends-mono {ℓ} :
    {A : Type ℓ} {u : ℕ} {b : InBuffer} {r : Result (A × InBuffer)} (w : ℕ)
    → w ≤ u
    → Ends u b r
    → Ends w b r
Ends-mono w h (returns a b' v l) = returns a b' v (omega arith)
Ends-mono w h (throws e) = throws e

Safe-mono {ℓ} :
    {A : Type ℓ} {u room : ℕ} {p : Reader A} (w : ℕ) → w ≤ u → Safe u room p → Safe w room p
Safe-mono w h s = record { ends = λ b v l. Ends-mono w h (s.ends b v l) }

Ends-add {ℓ} :
    {A : Type ℓ} {b c : InBuffer} {r : Result (A × InBuffer)} (u w : ℕ)
    → left c + u ≤ left b
    → Ends w c r
    → Ends (u + w) b r
Ends-add u w h (returns a b' v l) = returns a b' v (omega arith)
Ends-add u w h (throws e) = throws e

Ends-and_then {ℓ κ} :
    {A : Type ℓ} {B : Type κ} {r : Result (A × InBuffer)} (f : A → Reader B) {u : ℕ} (w room : ℕ)
    {b : InBuffer}
    → left b ≤ room
    → Ends u b r
    → ((a : A) → u ≤ room → Safe w (room - u) (f a))
    → Ends (u + w) b (and_then r f)
Ends-and_then f w room l (returns a b' v h) k =
    Ends-add _ w h ((k a (omega arith)).ends b' v (omega arith))
Ends-and_then f w room l (throws e) k = throws e

Safe-bind {ℓ κ} :
    {A : Type ℓ} {B : Type κ} {p : Reader A} (f : A → Reader B) {u w room : ℕ}
    → Safe u room p
    → ((a : A) → u ≤ room → Safe w (room - u) (f a))
    → Safe (u + w) room (p >>= f)
Safe-bind {p} f {u} {w} {room} s k = record {
  ends = λ b v l. Ends-and_then f w room l (s.ends b v l) k;
}

unread-left : (b : InBuffer) → IsValid b → unread b ≡ left b
unfolding unread
unread-left b v = omega arith

Safe-next_data : (room n : ℕ) → Safe (n % 2 ^ 32) room (next_data n)
unfolding next_data
Safe-next_data room n = record {
  ends = λ b v h. elim (Bool-cases (leb n (unread b))) [
    | inl fits ↦
        rw (fits, next_data)
          (returns _ (record b { skip = b.skip + n % 2 ^ 32 })
            (record {
              within = omega (arith, leb→le _ _ fits, unread-left b v);
              bounded = v.bounded;
            })
            (omega (arith, leb→le _ _ fits, unread-left b v)))
    | inr few ↦ rw (few, next_data) (throws out_of_range)
  ];
}

Safe-next_be : (room k : ℕ) → k < 2 ^ 32 → Safe k room (next_be k)
unfolding next_be
Safe-next_be room k h =
    Safe-mono k (omega arith)
      (Safe-bind _ (Safe-next_data room k) (λ bs _. Safe-pure _ (from_be 0 bs)))

Safe-uint8 : (room : ℕ) → Safe 1 room next_uint8
unfolding next_uint8
Safe-uint8 room = Safe-next_be room 1 (omega arith)

Safe-uint16 : (room : ℕ) → Safe 2 room next_uint16
unfolding next_uint16
Safe-uint16 room = Safe-next_be room 2 (omega arith)

Safe-uint32 : (room : ℕ) → Safe 4 room next_uint32
unfolding next_uint32
Safe-uint32 room = Safe-next_be room 4 (omega arith)

Safe-uint64 : (room : ℕ) → Safe 8 room next_uint64
unfolding next_uint64
Safe-uint64 room = Safe-next_be room 8 (omega arith)

Safe-int8 : (room : ℕ) → Safe 1 room next_int8
unfolding next_int8
Safe-int8 room =
    Safe-mono 1 (omega arith)
      (Safe-bind _ (Safe-next_be room 1 (omega arith)) (λ v _. Safe-pure _ (of_word (2 ^ 8) v)))

Safe-int16 : (room : ℕ) → Safe 2 room next_int16
unfolding next_int16
Safe-int16 room =
    Safe-mono 2 (omega arith)
      (Safe-bind _ (Safe-next_be room 2 (omega arith)) (λ v _. Safe-pure _ (of_word (2 ^ 16) v)))

Safe-int32 : (room : ℕ) → Safe 4 room next_int32
unfolding next_int32
Safe-int32 room =
    Safe-mono 4 (omega arith)
      (Safe-bind _ (Safe-next_be room 4 (omega arith)) (λ v _. Safe-pure _ (of_word (2 ^ 32) v)))

Safe-int64 : (room : ℕ) → Safe 8 room next_int64
unfolding next_int64
Safe-int64 room =
    Safe-mono 8 (omega arith)
      (Safe-bind _ (Safe-next_be room 8 (omega arith)) (λ v _. Safe-pure _ (of_word (2 ^ 64) v)))

Safe-any {ℓ} : {A : Type ℓ} {u room : ℕ} {p : Reader A} → Safe u room p → Safe 0 room p
Safe-any s = Safe-mono 0 (omega arith) s

Safe-data : (room n : ℕ) → Safe 0 room (next_data n)
Safe-data room n = Safe-any (Safe-next_data room n)

Safe-short_string : (room : ℕ) → Safe 1 room next_short_string
unfolding next_short_string
Safe-short_string room = Safe-bind _ (Safe-uint8 room) (λ n _. Safe-data _ n)

Safe-long_string : (room : ℕ) → Safe 4 room next_long_string
unfolding next_long_string
Safe-long_string room = Safe-bind _ (Safe-uint32 room) (λ n _. Safe-data _ n)

Safe-decimal : (room : ℕ) → Safe 1 room next_decimal
unfolding next_decimal
Safe-decimal room = Safe-bind _ (Safe-uint8 room) λ places _.
    Safe-any (Safe-bind _ (Safe-uint32 _) (λ number _. Safe-pure _ (decimal places number)))

Safe-if {ℓ} :
    {A : Type ℓ} {u room : ℕ} {p q : Reader A} (t : Bool)
    → Safe u room p
    → Safe u room q
    → Safe u room (if t then p else q)
Safe-if true s r = s
Safe-if false s r = r

Safe-as_field {ℓ} :
    {A : Type ℓ} {u room : ℕ} {p : Reader A} (f : A → Field)
    → Safe u room p
    → Safe 0 room (p >>= λ a. pure (some (f a)))
Safe-as_field f s = Safe-any (Safe-bind _ s (λ a _. Safe-pure _ (some (f a))))

Safe-array_loop :
    (item : Reader (Option Field)) (n room bytes : ℕ) (items : FieldArray)
    → ((c : ℕ) → c ≤ room → Safe 1 c item)
    → room < n
    → Safe 0 room (array_loop item n bytes items)
unfolding array_loop
Safe-array_loop item zero room bytes items s h = absurd (omega arith)
Safe-array_loop item (suc n) room bytes items s h = Safe-if (bytes == 0) (Safe-pure room items) (
    Safe-any (
      Safe-bind _ (s room (omega arith)) λ field pos.
        Safe-array_loop item n (room - 1) _ _ (λ c k. s c (omega arith)) (omega arith)))

Safe-table_loop :
    (item : Reader (Option Field)) (n room bytes : ℕ) (m : FieldMap)
    → ((c : ℕ) → c ≤ room → Safe 1 c item)
    → room < n
    → Safe 0 room (table_loop item n bytes m)
unfolding table_loop
Safe-table_loop item zero room bytes m s h = absurd (omega arith)
Safe-table_loop item (suc n) room bytes m s h = Safe-if (bytes == 0) (Safe-pure room m) (
    Safe-any (
      Safe-bind _ (Safe-short_string room) λ name pos₁. Safe-any (
        Safe-bind _ (s (room - 1) (omega arith)) λ field pos.
          Safe-table_loop item n (room - 1 - 1) _ _ (λ c k. s c (omega arith)) (omega arith))))

Safe-decode_type :
    (room type : ℕ) (read_array : Reader FieldArray) (read_map : Reader FieldMap)
    → Safe 0 room read_array
    → Safe 0 room read_map
    → Safe 0 room (decode_type read_array read_map type)
unfolding decode_type next_float next_double
Safe-decode_type room type read_array read_map sa st =
    Safe-if (type == b't') (Safe-as_field boolean_set (Safe-uint8 room)) (
      Safe-if (type == b'b') (Safe-as_field octet (Safe-int8 room)) (
        Safe-if (type == b'B') (Safe-as_field u_octet (Safe-uint8 room)) (
          Safe-if (type == b'U') (Safe-as_field short (Safe-int16 room)) (
            Safe-if (type == b'u') (Safe-as_field u_short (Safe-uint16 room)) (
              Safe-if (type == b'I') (Safe-as_field long (Safe-int32 room)) (
                Safe-if (type == b'i') (Safe-as_field u_long (Safe-uint32 room)) (
                  Safe-if (type == b'L') (Safe-as_field long_long (Safe-int64 room)) (
                    Safe-if (type == b'l') (Safe-as_field u_long_long (Safe-uint64 room)) (
                      Safe-if (type == b'f') (Safe-as_field float (Safe-data room 4)) (
                        Safe-if (type == b'd') (Safe-as_field double (Safe-data room 8)) (
                          Safe-if (type == b'D') (Safe-as_field (λ f. f) (Safe-decimal room)) (
                            Safe-if (type == b's')
                              (Safe-as_field short_string (Safe-short_string room))
                              (Safe-if (type == b'S')
                                (Safe-as_field long_string (Safe-long_string room))
                                (Safe-if (type == b'A') (Safe-as_field array sa) (
                                  Safe-if (type == b'T')
                                    (Safe-as_field timestamp (Safe-uint64 room))
                                    (Safe-if (type == b'F') (Safe-as_field table st) (
                                      Safe-if (type == b'V') (Safe-pure room (some void_field)) (
                                        Safe-if (type == b'x')
                                          (Safe-as_field long_string (Safe-long_string room))
                                          (Safe-pure room none)))))))))))))))))))

Safe-decode_fuel : (n room : ℕ) → room < n → Safe 1 room (decode_fuel n)
unfolding decode_fuel next_array next_table
Safe-decode_fuel zero room h = absurd (omega arith)
Safe-decode_fuel (suc n) room h = Safe-bind _ (Safe-uint8 room) λ type typed.
    Safe-decode_type (room - 1) type _ _
      (Safe-any (
        Safe-bind _ (Safe-uint32 (room - 1)) λ bytes pos.
          Safe-array_loop (decode_fuel n) n _ bytes nil (λ c k. Safe-decode_fuel n c (omega arith))
            (omega arith)))
      (Safe-any (
        Safe-bind _ (Safe-uint32 (room - 1)) λ bytes pos.
          Safe-table_loop (decode_fuel n) n _ bytes empty
            (λ c k. Safe-decode_fuel n c (omega arith)) (omega arith)))

-- On every valid buffer, well formed or not, decoding a field returns or throws: when it returns, at
-- least the type byte is read and the buffer is valid.
pub decode-Ends : (b : InBuffer) → IsValid b → Ends 1 b (decode b)
unfolding decode
decode-Ends b v =
    (Safe-decode_fuel (unread b + 1) (left b) (omega (arith, unread-left b v))).ends b v
      (omega arith)

-- The same for a table that stands alone, which takes four bytes at least.
pub read_table-Ends : (b : InBuffer) → IsValid b → Ends 4 b (read_table b)
unfolding read_table next_table
read_table-Ends b v =
    (Safe-mono 4 (omega arith) (
        Safe-bind _ (Safe-uint32 (left b)) λ bytes pos.
          Safe-table_loop (decode_fuel (unread b + 1)) (unread b + 1) _ bytes empty
            (λ c k. Safe-decode_fuel (unread b + 1) c (omega (arith, unread-left b v)))
            (omega (arith, unread-left b v)))).ends
      b v (omega arith)
