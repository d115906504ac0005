-- ===== src/Field/Size.antt =====
-- The `size` of each field class against its `fill`.
use amqp_cpp.Base.Int.{InWord}
use amqp_cpp.Base.{ℕ, ◌+◌, ◌-◌, ◌<◌, ◌%◌, ◌^◌, ◌≡◌, refl, List, ◌++◌, length, length-append, arith}
use amqp_cpp.Wire.{add_uint8, add_uint32, add_string, add_float, add_double}
use amqp_cpp.Wire.Primitives.{
  length-add_uint8, length-add_uint16, length-add_uint32, length-add_uint64, length-add_int8,
  length-add_int16, length-add_int32, length-add_int64,
}
use amqp_cpp.Field.{
  Field, FieldArray, FieldMap, boolean_set, octet, u_octet, short, u_short, long, u_long, long_long,
  u_long_long, float, double, decimal, short_string, long_string, array, timestamp, table,
  void_field, nil, cons, empty, entry, size, items_size, entries_size, fill, fill_items,
  fill_entries, type_id, short_string_size, long_string_size, fill_short_string, fill_long_string,
  array_size, table_size, fill_table,
}

pub length-fill_short_string : (s : List ℕ) → length (fill_short_string s) ≡ short_string_size s
unfolding fill_short_string short_string_size add_string
length-fill_short_string s =
    omega
      (arith, length-append (add_uint8 (length s % 2 ^ 8)) s, length-add_uint8 (length s % 2 ^ 8))

pub length-fill_long_string : (s : List ℕ) → length (fill_long_string s) ≡ long_string_size s
unfolding fill_long_string long_string_size add_string
length-fill_long_string s =
    omega (
      arith,
      length-append (add_uint32 (length s % 2 ^ 32)) s,
      length-add_uint32 (length s % 2 ^ 32),
    )

abbrev mutual
  -- The values that the C++ types hold: the object of a float has four bytes.
  pub IsTyped : Field → Type 0
  IsTyped (boolean_set byte) = byte < 2 ^ 8
  IsTyped (octet v) = InWord (2 ^ 8) v
  IsTyped (u_octet v) = v < 2 ^ 8
  IsTyped (short v) = InWord (2 ^ 16) v
  IsTyped (u_short v) = v < 2 ^ 16
  IsTyped (long v) = InWord (2 ^ 32) v
  IsTyped (u_long v) = v < 2 ^ 32
  IsTyped (long_long v) = InWord (2 ^ 64) v
  IsTyped (u_long_long v) = v < 2 ^ 64
  IsTyped (float v) = length v ≡ 4
  IsTyped (double v) = length v ≡ 8
  IsTyped (decimal places number) = (places < 2 ^ 8) × (number < 2 ^ 32)
  IsTyped (short_string s) = Unit {0}
  IsTyped (long_string s) = Unit {0}
  IsTyped (array items) = ItemsTyped items
  IsTyped (timestamp v) = v < 2 ^ 64
  IsTyped (table m) = EntriesTyped m
  IsTyped void_field = Unit {0}

  pub ItemsTyped : FieldArray → Type 0
  ItemsTyped nil = Unit {0}
  ItemsTyped (cons f items) = IsTyped f × ItemsTyped items

  pub EntriesTyped : FieldMap → Type 0
  EntriesTyped empty = Unit {0}
  EntriesTyped (entry k f m) = IsTyped f × EntriesTyped m

mutual
  unfolding size fill short_string_size add_float add_double array_size table_size

  length-fill_field : (f : Field) → IsTyped f → length (fill f) ≡ size f
  length-fill_field (boolean_set byte) h = length-add_uint8 byte
  length-fill_field (octet v) h = length-add_int8 v
  length-fill_field (u_octet v) h = length-add_uint8 v
  length-fill_field (short v) h = length-add_int16 v
  length-fill_field (u_short v) h = length-add_uint16 v
  length-fill_field (long v) h = length-add_int32 v
  length-fill_field (u_long v) h = length-add_uint32 v
  length-fill_field (long_long v) h = length-add_int64 v
  length-fill_field (u_long_long v) h = length-add_uint64 v
  length-fill_field (float v) h = h
  length-fill_field (double v) h = h
  length-fill_field (decimal places number) h = omega (
    arith,
    length-append (add_uint8 places) (add_uint32 number),
    length-add_uint8 places,
    length-add_uint32 number,
  )
  length-fill_field (short_string s) h = length-fill_short_string s
  length-fill_field (long_string s) h = length-fill_long_string s
  length-fill_field (array items) h =
      let bytes = (array_size items - 4) % 2 ^ 32 in
      omega (
        arith,
        length-append (add_uint32 bytes) (fill_items items),
        length-add_uint32 bytes,
        length-fill_items_loop items h,
      )
  length-fill_field (timestamp v) h = length-add_uint64 v
  length-fill_field (table m) h =
      let bytes = (table_size m - 4) % 2 ^ 32 in
      omega (
        arith,
        length-append (add_uint32 bytes) (fill_entries m),
        length-add_uint32 bytes,
        length-fill_entries_loop m h,
      )
  length-fill_field void_field h = refl

  length-fill_items_loop :
      (items : FieldArray) → ItemsTyped items → length (fill_items items) ≡ items_size items
  length-fill_items_loop nil h = refl
  length-fill_items_loop (cons f items) h = omega (
    arith,
    length-append (add_uint8 (type_id f)) (fill f ++ fill_items items),
    length-append (fill f) (fill_items items),
    length-add_uint8 (type_id f),
    length-fill_field f h.0,
    length-fill_items_loop items h.1,
  )

  length-fill_entries_loop :
      (m : FieldMap) → EntriesTyped m → length (fill_entries m) ≡ entries_size m
  length-fill_entries_loop empty h = refl
  length-fill_entries_loop (entry k f m) h = omega (
    arith,
    length-append (fill_short_string k) (add_uint8 (type_id f) ++ (fill f ++ fill_entries m)),
    length-append (add_uint8 (type_id f)) (fill f ++ fill_entries m),
    length-append (fill f) (fill_entries m),
    length-fill_short_string k,
    length-add_uint8 (type_id f),
    length-fill_field f h.0,
    length-fill_entries_loop m h.1,
  )

-- Every field, nested tables and arrays included, writes as many bytes as its `size` says.
pub length-fill : (f : Field) → IsTyped f → length (fill f) ≡ size f
length-fill f h = length-fill_field f h

pub length-fill_items :
    (items : FieldArray) → ItemsTyped items → length (fill_items items) ≡ items_size items
length-fill_items items h = length-fill_items_loop items h

pub length-fill_entries : (m : FieldMap) → EntriesTyped m → length (fill_entries m) ≡ entries_size m
length-fill_entries m h = length-fill_entries_loop m h

pub length-fill_table : (m : FieldMap) → EntriesTyped m → length (fill_table m) ≡ table_size m
unfolding fill_table table_size
length-fill_table m h = omega (
  arith,
  length-append (add_uint32 ((4 + entries_size m - 4) % 2 ^ 32)) (fill_entries m),
  length-add_uint32 ((4 + entries_size m - 4) % 2 ^ 32),
  length-fill_entries m h,
)
