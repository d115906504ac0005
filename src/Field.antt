-- ===== src/Field.antt =====
-- include/amqpcpp/field.h and its subclasses, src/field.cpp, src/table.cpp and src/array.cpp: the
-- values of headers and arguments, their sizes, and how they are written. A string is its list of
-- bytes; a `size_t` holds every size, which is a plain number here.
pub mod BooleanSet
pub mod Keys
pub mod Table
pub mod Decode
pub mod Size
pub mod RoundTrip
pub mod Total
use amqp_cpp.Base.{ℕ, ◌+◌, ◌-◌, ◌%◌, ◌^◌, List, [], ◌∷◌, ◌++◌, length}
use amqp_cpp.Base.Int.{ℤ}
use amqp_cpp.Wire.{
  add_uint8, add_uint16, add_uint32, add_uint64, add_int8, add_int16, add_int32, add_int64,
  add_float, add_double, add_string,
}

-- A constructor for each subclass of `Field`; 'T' is `Timestamp`, 'F' a `Table`. A `FieldMap` is the
-- `std::map` of a table by its entries in key order.
mutual
  pub data Field : Type 0 where
    boolean_set : ℕ → Field
    octet : ℤ → Field
    u_octet : ℕ → Field
    short : ℤ → Field
    u_short : ℕ → Field
    long : ℤ → Field
    u_long : ℕ → Field
    long_long : ℤ → Field
    u_long_long : ℕ → Field
    float : List ℕ → Field
    double : List ℕ → Field
    decimal : ℕ → ℕ → Field
    short_string : List ℕ → Field
    long_string : List ℕ → Field
    array : FieldArray → Field
    timestamp : ℕ → Field
    table : FieldMap → Field
    void_field : Field

  pub data FieldArray : Type 0 where
    nil : FieldArray
    cons : Field → FieldArray → FieldArray

  pub data FieldMap : Type 0 where
    empty : FieldMap
    entry : List ℕ → Field → FieldMap → FieldMap

unfoldable pub type_id : Field → ℕ
type_id (boolean_set byte) = b't'
type_id (octet v) = b'b'
type_id (u_octet v) = b'B'
type_id (short v) = b'U'
type_id (u_short v) = b'u'
type_id (long v) = b'I'
type_id (u_long v) = b'i'
type_id (long_long v) = b'L'
type_id (u_long_long v) = b'l'
type_id (float v) = b'f'
type_id (double v) = b'd'
type_id (decimal places number) = b'D'
type_id (short_string s) = b's'
type_id (long_string s) = b'S'
type_id (array items) = b'A'
type_id (timestamp v) = b'T'
type_id (table m) = b'F'
type_id void_field = b'V'

-- `StringField::size` for its two instances: the width of the length, and the bytes.
unfoldable pub short_string_size : List ℕ → ℕ
short_string_size s = 1 + length s

unfoldable pub long_string_size : List ℕ → ℕ
long_string_size s = 4 + length s

-- `StringField::fill`: the length is cast to the width of the instance.
unfoldable pub fill_short_string : List ℕ → List ℕ
fill_short_string s = add_uint8 (length s % 2 ^ 8) ++ add_string s

unfoldable pub fill_long_string : List ℕ → List ℕ
fill_long_string s = add_uint32 (length s % 2 ^ 32) ++ add_string s

unfoldable mutual
  pub size : Field → ℕ
  size (boolean_set byte) = 1
  size (octet v) = 1
  size (u_octet v) = 1
  size (short v) = 2
  size (u_short v) = 2
  size (long v) = 4
  size (u_long v) = 4
  size (long_long v) = 8
  size (u_long_long v) = 8
  size (float v) = 4
  size (double v) = 8
  size (decimal places number) = 5
  size (short_string s) = short_string_size s
  size (long_string s) = long_string_size s
  size (array items) = 4 + items_size items
  size (timestamp v) = 8
  size (table m) = 4 + entries_size m
  size void_field = 0

  -- The loop of `Array::size`, which starts from 4.
  pub items_size : FieldArray → ℕ
  items_size nil = 0
  items_size (cons f items) = 1 + size f + items_size items

  -- The loop of `Table::size`, which starts from 4.
  pub entries_size : FieldMap → ℕ
  entries_size empty = 0
  entries_size (entry name f m) = short_string_size name + 1 + size f + entries_size m

unfoldable pub array_size : FieldArray → ℕ
array_size items = 4 + items_size items

unfoldable pub table_size : FieldMap → ℕ
table_size m = 4 + entries_size m

unfoldable mutual
  pub fill : Field → List ℕ
  fill (boolean_set byte) = add_uint8 byte
  fill (octet v) = add_int8 v
  fill (u_octet v) = add_uint8 v
  fill (short v) = add_int16 v
  fill (u_short v) = add_uint16 v
  fill (long v) = add_int32 v
  fill (u_long v) = add_uint32 v
  fill (long_long v) = add_int64 v
  fill (u_long_long v) = add_uint64 v
  fill (float v) = add_float v
  fill (double v) = add_double v
  fill (decimal places number) = add_uint8 places ++ add_uint32 number
  fill (short_string s) = fill_short_string s
  fill (long_string s) = fill_long_string s
  fill (array items) = add_uint32 ((array_size items - 4) % 2 ^ 32) ++ fill_items items
  fill (timestamp v) = add_uint64 v
  fill (table m) = add_uint32 ((table_size m - 4) % 2 ^ 32) ++ fill_entries m
  fill void_field = []

  pub fill_items : FieldArray → List ℕ
  fill_items nil = []
  fill_items (cons f items) = add_uint8 (type_id f) ++ (fill f ++ fill_items items)

  pub fill_entries : FieldMap → List ℕ
  fill_entries empty = []
  fill_entries (entry name f m) =
      fill_short_string name ++ (add_uint8 (type_id f) ++ (fill f ++ fill_entries m))

unfoldable pub fill_table : FieldMap → List ℕ
fill_table m = add_uint32 ((table_size m - 4) % 2 ^ 32) ++ fill_entries m
