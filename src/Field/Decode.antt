-- ===== src/Field/Decode.antt =====
-- `Field::decode` (src/field.cpp), the constructors of the field classes from an `InBuffer`, and the
-- loops of `Table::Table(InBuffer &)` and `Array::Array(InBuffer &)`. The nesting of tables and arrays
-- recurs on fuel, and so do the two loops; the fuel is one more than the bytes left in the buffer.
use amqp_cpp.Base.{ℕ, zero, suc, ◌+◌, ◌-◌, ◌%◌, ◌^◌, ◌==◌, if◌then◌else◌, List, Option, none, some}
use amqp_cpp.Wire.{
  Reader, stuck, pure, ◌>>=◌, unread, next_data, next_uint8, next_uint16, next_uint32, next_uint64,
  next_int8, next_int16, next_int32, next_int64, next_float, next_double,
}
use amqp_cpp.Field.{
  Field, FieldArray, FieldMap, boolean_set, octet, u_octet, short, u_short, long, u_long, long_long,
  u_long_long, float, double, decimal, short_string, long_string, array, timestamp, table,
  void_field, nil, empty, size, short_string_size,
}
use amqp_cpp.Field.Table.{set, push_back}

-- `StringField(InBuffer &)` for its two instances.
unfoldable pub next_short_string : Reader (List ℕ)
next_short_string = next_uint8 >>= λ n. next_data n

unfoldable pub next_long_string : Reader (List ℕ)
next_long_string = next_uint32 >>= λ n. next_data n

unfoldable pub next_decimal : Reader Field
next_decimal = next_uint8 >>= λ places. next_uint32 >>= λ number. pure (decimal places number)

abbrev out_of_fuel {ℓ} : {A : Type ℓ} → Reader A
out_of_fuel b = stuck

-- `a -= b` on a `uint32_t`.
abbrev pub sub32 : ℕ → ℕ → ℕ
sub32 a b = (a + 2 ^ 32 - b % 2 ^ 32) % 2 ^ 32

-- A field of an unknown type is left out, and its one byte counts.
abbrev array_item : ℕ → FieldArray → Option Field → ℕ × FieldArray
array_item bytes items none = (bytes, items)
array_item bytes items (some f) = (sub32 bytes (size f), push_back items f)

unfoldable pub array_loop : Reader (Option Field) → ℕ → ℕ → FieldArray → Reader FieldArray
array_loop decode zero bytes items = if bytes == 0 then pure items else out_of_fuel
array_loop decode (suc n) bytes items =
    if bytes == 0
    then pure items
    else (decode >>= λ field.
        let next = array_item (sub32 bytes 1) items field in array_loop decode n next.0 next.1)

abbrev table_item : ℕ → FieldMap → List ℕ → Option Field → ℕ × FieldMap
table_item bytes m name none = (bytes, m)
table_item bytes m name (some f) = (sub32 bytes (size f), set name f m)

unfoldable pub table_loop : Reader (Option Field) → ℕ → ℕ → FieldMap → Reader FieldMap
table_loop decode zero bytes m = if bytes == 0 then pure m else out_of_fuel
table_loop decode (suc n) bytes m =
    if bytes == 0
    then pure m
    else (next_short_string >>= λ name. decode >>= λ field.
        let next = table_item (sub32 bytes (short_string_size name + 1)) m name field in
        table_loop decode n next.0 next.1)

unfoldable pub next_array : Reader (Option Field) → ℕ → Reader FieldArray
unfolding array_loop
next_array decode n = next_uint32 >>= λ bytes. array_loop decode n bytes nil

unfoldable pub next_table : Reader (Option Field) → ℕ → Reader FieldMap
unfolding table_loop
next_table decode n = next_uint32 >>= λ bytes. table_loop decode n bytes empty

abbrev as_field {ℓ} : {A : Type ℓ} → (A → Field) → Reader A → Reader (Option Field)
as_field f m = m >>= λ a. pure (some (f a))

-- The switch of `Field::decode`; an unknown type is a null pointer.
unfoldable pub decode_type : Reader FieldArray → Reader FieldMap → ℕ → Reader (Option Field)
unfolding next_short_string next_long_string next_decimal
decode_type read_array read_table type =
    if type == b't'
    then as_field boolean_set next_uint8
    else if type == b'b'
    then as_field octet next_int8
    else if type == b'B'
    then as_field u_octet next_uint8
    else if type == b'U'
    then as_field short next_int16
    else if type == b'u'
    then as_field u_short next_uint16
    else if type == b'I'
    then as_field long next_int32
    else if type == b'i'
    then as_field u_long next_uint32
    else if type == b'L'
    then as_field long_long next_int64
    else if type == b'l'
    then as_field u_long_long next_uint64
    else if type == b'f'
    then as_field float next_float
    else if type == b'd'
    then as_field double next_double
    else if type == b'D'
    then as_field (λ f. f) next_decimal
    else if type == b's'
    then as_field short_string next_short_string
    else if type == b'S'
    then as_field long_string next_long_string
    else if type == b'A'
    then as_field array read_array
    else if type == b'T'
    then as_field timestamp next_uint64
    else if type == b'F'
    then as_field table read_table
    else if type == b'V'
    then pure (some void_field)
    else if type == b'x'
    then as_field long_string next_long_string
    else pure none

unfoldable pub decode_fuel : ℕ → Reader (Option Field)
unfolding next_array next_table decode_type
decode_fuel zero = out_of_fuel
decode_fuel (suc n) = next_uint8 >>= λ type.
    decode_type (next_array (decode_fuel n) n) (next_table (decode_fuel n) n) type

-- `Field::decode`, and `Table(InBuffer &)` where it stands alone.
unfoldable pub decode : Reader (Option Field)
unfolding decode_fuel
decode b = decode_fuel (unread b + 1) b

unfoldable pub read_table : Reader FieldMap
unfolding next_table
read_table b = next_table (decode_fuel (unread b + 1)) (unread b + 1) b
