-- ===== src/Field/RoundTrip.antt =====
-- `Field::decode` of src/field.cpp against the `fill` of each field class.
use mathlib.Core.Path.{subst}
use amqp_cpp.Base.{
  ℕ, zero, suc, ◌+◌, ◌-◌, ◌%◌, ◌^◌, ◌≤◌, ◌<◌, ◌≡◌, refl, sym, List, [], ◌++◌, length, length-append,
  append_assoc, some, ◌==◌, arith, false,
}
use amqp_cpp.Wire.{ok, next_data, add_uint8, add_uint32, add_string}
use amqp_cpp.Wire.Reads.{
  Reads, Reads-pure, Reads-bind, Reads-map, Reads-cast, Reads-next_data, at, unread-at,
}
use amqp_cpp.Wire.Primitives.{
  Reads-uint8, Reads-uint16, Reads-uint32, Reads-uint64, Reads-int8, Reads-int16, Reads-int32,
  Reads-int64, Reads-float, Reads-double,
}
use amqp_cpp.Field.{
  Field, FieldArray, FieldMap, boolean_set, octet, u_octet, short, u_short, long, u_long, long_long,
  u_long_long, float, double, decimal, short_string, long_string, array, timestamp, table,
  void_field, nil, cons, empty, entry, size, items_size, entries_size, fill, fill_items,
  fill_entries, type_id, short_string_size, fill_short_string, fill_long_string, array_size,
  table_size, fill_table,
}
use amqp_cpp.Field.Table.{
  IsSorted, append, append-empty, append_assoc as append_assoc_map, set, set-append, push_back,
  array_append, array_append-nil, array_append-push_back,
}
use amqp_cpp.Field.Size.{IsTyped, ItemsTyped, EntriesTyped, length-fill, length-fill_table}
use amqp_cpp.Field.Decode.{
  next_short_string, next_long_string, next_decimal, array_loop, table_loop, next_array, next_table,
  decode_type, decode_fuel, decode, read_table,
}

abbrev mutual
  -- What the format can carry: a short string of at most 255 bytes, sizes below 2 ^ 32, and tables
  -- with their keys in order.
  pub IsEncodable : Field → Type 0
  IsEncodable (short_string s) = length s < 2 ^ 8
  IsEncodable (long_string s) = length s < 2 ^ 32
  IsEncodable (array items) = (items_size items < 2 ^ 32) × ItemsEncodable items
  IsEncodable (table m) = (entries_size m < 2 ^ 32) × IsSorted m × EntriesEncodable m
  IsEncodable (boolean_set byte) = Unit {0}
  IsEncodable (octet v) = Unit {0}
  IsEncodable (u_octet v) = Unit {0}
  IsEncodable (short v) = Unit {0}
  IsEncodable (u_short v) = Unit {0}
  IsEncodable (long v) = Unit {0}
  IsEncodable (u_long v) = Unit {0}
  IsEncodable (long_long v) = Unit {0}
  IsEncodable (u_long_long v) = Unit {0}
  IsEncodable (float v) = Unit {0}
  IsEncodable (double v) = Unit {0}
  IsEncodable (decimal places number) = Unit {0}
  IsEncodable (timestamp v) = Unit {0}
  IsEncodable void_field = Unit {0}

  pub ItemsEncodable : FieldArray → Type 0
  ItemsEncodable nil = Unit {0}
  ItemsEncodable (cons f items) = IsEncodable f × ItemsEncodable items

  pub EntriesEncodable : FieldMap → Type 0
  EntriesEncodable empty = Unit {0}
  EntriesEncodable (entry k f m) = (length k < 2 ^ 8) × IsEncodable f × EntriesEncodable m

pub Reads-short_string :
    (s : List ℕ) → length s < 2 ^ 8 → Reads next_short_string (fill_short_string s) s
unfolding next_short_string fill_short_string add_string
Reads-short_string s h =
    Reads-bind _ (Reads-uint8 (length s % 2 ^ 8) (omega arith))
      (subst (λ n. Reads (next_data n) s s) (omega arith) (Reads-next_data s (omega arith)))

pub Reads-long_string :
    (s : List ℕ) → length s < 2 ^ 32 → Reads next_long_string (fill_long_string s) s
unfolding next_long_string fill_long_string add_string
Reads-long_string s h =
    Reads-bind _ (Reads-uint32 (length s % 2 ^ 32) (omega arith))
      (subst (λ n. Reads (next_data n) s s) (omega arith) (Reads-next_data s (omega arith)))

Reads-decimal :
    (places number : ℕ)
    → places < 2 ^ 8
    → number < 2 ^ 32
    → Reads next_decimal (add_uint8 places ++ add_uint32 number) (decimal places number)
unfolding next_decimal
Reads-decimal places number h k =
    Reads-bind _ (Reads-uint8 places h) (Reads-map _ (Reads-uint32 number k))

abbrev Good : ℕ → Field → Type 0
Good n f = Reads (decode_fuel n) (add_uint8 (type_id f) ++ fill f) (some f)

ne_zero : (n : ℕ) → 0 < n → (n == 0) ≡ false
ne_zero n h = ground arith

abbrev Body : ℕ → Field → Type 0
Body n f =
    Reads (decode_type (next_array (decode_fuel n) n) (next_table (decode_fuel n) n) (type_id f))
      (fill f) (some f)

type_id-lt : (f : Field) → type_id f < 2 ^ 8
unfolding type_id
type_id-lt (octet v) = omega arith
type_id-lt f = omega arith

-- The type byte selects the constructor of the class that wrote it.
Good-of_Body : (f : Field) (n : ℕ) → size f < n → ((m : ℕ) → size f ≤ m → Body m f) → Good n f
unfolding decode_fuel
Good-of_Body f zero h body = absurd (omega arith)
Good-of_Body f (suc n) h body =
    Reads-bind _ (Reads-uint8 (type_id f) (type_id-lt f)) (body n (omega arith))

-- One round of each loop.
array_round :
    (n k bytes : ℕ) (f : Field) (acc items result : FieldArray)
    → Good n f
    → bytes ≡ 1 + size f + items_size items
    → bytes < 2 ^ 32
    → Reads
        (array_loop (decode_fuel n) k (items_size items) (push_back acc f))
        (fill_items items)
        result
    → Reads (array_loop (decode_fuel n) (suc k) bytes acc) (fill_items (cons f items)) result
unfolding array_loop fill
array_round n k bytes f acc items result good e h rest = rw (ne_zero bytes (omega arith)) (
    Reads-cast (append_assoc (add_uint8 (type_id f)) (fill f) (fill_items items)) refl (
      Reads-bind _ good (
        subst
          (λ left.
            Reads (array_loop (decode_fuel n) k left (push_back acc f)) (fill_items items) result)
          (omega arith) rest)))

table_round :
    (n k bytes : ℕ) (name : List ℕ) (f : Field) (acc m result : FieldMap)
    → Good n f
    → length name < 2 ^ 8
    → bytes ≡ short_string_size name + 1 + size f + entries_size m
    → bytes < 2 ^ 32
    → Reads (table_loop (decode_fuel n) k (entries_size m) (set name f acc)) (fill_entries m) result
    → Reads (table_loop (decode_fuel n) (suc k) bytes acc) (fill_entries (entry name f m)) result
unfolding table_loop fill
table_round n k bytes name f acc m result good fits e h rest = rw (ne_zero bytes (omega arith)) (
    Reads-bind _ (Reads-short_string name fits) (
      Reads-cast (append_assoc (add_uint8 (type_id f)) (fill f) (fill_entries m)) refl (
        Reads-bind _ good (
          subst
            (λ left.
              Reads (table_loop (decode_fuel n) k left (set name f acc)) (fill_entries m) result)
            (omega arith) rest))))

-- The loops end when no bytes are left.
array_end : (n k : ℕ) (acc : FieldArray) → Reads (array_loop (decode_fuel n) k 0 acc) [] acc
unfolding array_loop
array_end n zero acc = Reads-pure acc
array_end n (suc k) acc = Reads-pure acc

table_end : (n k : ℕ) (acc : FieldMap) → Reads (table_loop (decode_fuel n) k 0 acc) [] acc
unfolding table_loop
table_end n zero acc = Reads-pure acc
table_end n (suc k) acc = Reads-pure acc

-- The length in front of the items is read first.
array_body :
    (n : ℕ) (items : FieldArray)
    → items_size items < 2 ^ 32
    → Reads (array_loop (decode_fuel n) n (items_size items) nil) (fill_items items) items
    → Reads (next_array (decode_fuel n) n) (fill (array items)) items
unfolding next_array fill array_size
array_body n items h rest =
    Reads-bind _ (Reads-uint32 ((4 + items_size items - 4) % 2 ^ 32) (omega arith)) (
      subst (λ bytes. Reads (array_loop (decode_fuel n) n bytes nil) (fill_items items) items)
        (omega arith) rest)

table_body :
    (n : ℕ) (m : FieldMap)
    → entries_size m < 2 ^ 32
    → Reads (table_loop (decode_fuel n) n (entries_size m) empty) (fill_entries m) m
    → Reads (next_table (decode_fuel n) n) (fill_table m) m
unfolding next_table fill_table table_size
table_body n m h rest =
    Reads-bind _ (Reads-uint32 ((4 + entries_size m - 4) % 2 ^ 32) (omega arith)) (
      subst (λ bytes. Reads (table_loop (decode_fuel n) n bytes empty) (fill_entries m) m)
        (omega arith) rest)

mutual
  unfolding size type_id decode_type fill fill_table

  body : (f : Field) → IsTyped f → IsEncodable f → (n : ℕ) → size f ≤ n → Body n f
  body (boolean_set byte) t e n h = Reads-map (λ a. some (boolean_set a)) (Reads-uint8 byte t)
  body (octet v) t e n h = Reads-map (λ a. some (octet a)) (Reads-int8 v t)
  body (u_octet v) t e n h = Reads-map (λ a. some (u_octet a)) (Reads-uint8 v t)
  body (short v) t e n h = Reads-map (λ a. some (short a)) (Reads-int16 v t)
  body (u_short v) t e n h = Reads-map (λ a. some (u_short a)) (Reads-uint16 v t)
  body (long v) t e n h = Reads-map (λ a. some (long a)) (Reads-int32 v t)
  body (u_long v) t e n h = Reads-map (λ a. some (u_long a)) (Reads-uint32 v t)
  body (long_long v) t e n h = Reads-map (λ a. some (long_long a)) (Reads-int64 v t)
  body (u_long_long v) t e n h = Reads-map (λ a. some (u_long_long a)) (Reads-uint64 v t)
  body (float v) t e n h = Reads-map (λ a. some (float a)) (Reads-float v t)
  body (double v) t e n h = Reads-map (λ a. some (double a)) (Reads-double v t)
  body (decimal places number) t e n h =
      Reads-map (λ a. some a) (Reads-decimal places number t.0 t.1)
  body (short_string s) t e n h = Reads-map (λ a. some (short_string a)) (Reads-short_string s e)
  body (long_string s) t e n h = Reads-map (λ a. some (long_string a)) (Reads-long_string s e)
  body (array items) t e n h =
      Reads-map (λ a. some (array a))
        (array_body n items e.0 (items_body items t e.1 n n nil (omega arith) (omega arith) e.0))
  body (timestamp v) t e n h = Reads-map (λ a. some (timestamp a)) (Reads-uint64 v t)
  body (table m) t e n h =
      Reads-map (λ a. some (table a))
        (table_body n m e.0 (entries_body m t e.2 n n empty e.1 (omega arith) (omega arith) e.0))
  body void_field t e n h = Reads-pure (some void_field)

  items_body :
      (items : FieldArray)
      → ItemsTyped items
      → ItemsEncodable items
      → (n k : ℕ) (acc : FieldArray) → items_size items ≤ n
      → items_size items ≤ k
      → items_size items < 2 ^ 32
      → Reads
          (array_loop (decode_fuel n) k (items_size items) acc)
          (fill_items items)
          (array_append acc items)
  items_body nil t e n k acc hn hk h =
      Reads-cast refl (sym (array_append-nil acc)) (array_end n k acc)
  items_body (cons f items) t e n zero acc hn hk h = absurd (omega arith)
  items_body (cons f items) t e n (suc k) acc hn hk h =
      array_round n k _ f acc items _ (Good-of_Body f n (omega arith) (body f t.0 e.0)) refl h (
        Reads-cast refl (array_append-push_back acc f items) (
          items_body items t.1 e.1 n k (push_back acc f) (omega arith) (omega arith) (omega arith)))

  entries_body :
      (m : FieldMap)
      → EntriesTyped m
      → EntriesEncodable m
      → (n k : ℕ) (acc : FieldMap) → IsSorted (append acc m)
      → entries_size m ≤ n
      → entries_size m ≤ k
      → entries_size m < 2 ^ 32
      → Reads (table_loop (decode_fuel n) k (entries_size m) acc) (fill_entries m) (append acc m)
  entries_body empty t e n k acc s hn hk h =
      Reads-cast refl (sym (append-empty acc)) (table_end n k acc)
  entries_body (entry name f m) t e n zero acc s hn hk h = absurd (omega arith)
  entries_body (entry name f m) t e n (suc k) acc s hn hk h =
      table_round n k _ name f acc m _ (Good-of_Body f n (omega arith) (body f t.0 e.1)) e.0 refl h
        (rw (set-append acc name f m s) (
          Reads-cast refl (append_assoc_map acc (entry name f empty) m) (
            entries_body m t.1 e.2 n k (append acc (entry name f empty))
              (rw (append_assoc_map acc (entry name f empty) m) s) (omega arith) (omega arith)
              (omega arith))))

Reads-decode_fuel :
    (n : ℕ) (f : Field)
    → size f < n
    → IsTyped f
    → IsEncodable f
    → Reads (decode_fuel n) (add_uint8 (type_id f) ++ fill f) (some f)
Reads-decode_fuel n f h t e = Good-of_Body f n h (body f t e)

-- A field that the format can carry is decoded to itself from its type byte and what `fill` wrote, at
-- any place in a buffer below 2 ^ 64 bytes and whatever follows, and the rest stays unread.
pub decode-fill :
    (f : Field) (front rest : List ℕ)
    → IsTyped f
    → IsEncodable f
    → length (front ++ ((add_uint8 (type_id f) ++ fill f) ++ rest)) < 2 ^ 64
    → decode (at front ((add_uint8 (type_id f) ++ fill f) ++ rest))
      ≡ ok (some f, at (front ++ (add_uint8 (type_id f) ++ fill f)) rest)
unfolding decode
decode-fill f front rest t e h =
    (Reads-decode_fuel _ f
        (omega (
          arith,
          unread-at front ((add_uint8 (type_id f) ++ fill f) ++ rest) h,
          length-append (add_uint8 (type_id f) ++ fill f) rest,
          length-append (add_uint8 (type_id f)) (fill f),
          length-fill f t,
        ))
        t e).run
      front rest h

Reads-next_table :
    (n : ℕ) (m : FieldMap)
    → entries_size m ≤ n
    → EntriesTyped m
    → IsEncodable (table m)
    → Reads (next_table (decode_fuel n) n) (fill_table m) m
Reads-next_table n m h t e = table_body n m e.0 (entries_body m t e.2 n n empty e.1 h h e.0)

-- The same for a table that stands alone, as the arguments of a method do.
pub Reads-read_table :
    (m : FieldMap) → EntriesTyped m → IsEncodable (table m) → Reads read_table (fill_table m) m
unfolding read_table table_size
Reads-read_table m t e = record {
  run = λ front rest h.
      (Reads-next_table _ m
          (omega (
            arith,
            unread-at front (fill_table m ++ rest) h,
            length-append (fill_table m) rest,
            length-fill_table m t,
          ))
          t e).run
        front rest h;
}
