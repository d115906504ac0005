-- ===== src/Field/Table.antt =====
-- include/amqpcpp/table.h, src/table.cpp, include/amqpcpp/array.h and src/array.cpp: the operations
-- on a table and on an array.
use amqp_cpp.Base.{
  ℕ, zero, suc, ◌≡◌, ◌≢◌, refl, Bool, true, false, if◌then◌else◌, List, [], ◌∷◌, Option, none, some,
  arith,
}
use amqp_cpp.Field.{Field, FieldArray, FieldMap, short_string, nil, cons, empty, entry}
use amqp_cpp.Field.Keys.{str_lt, str_lt_irrefl, str_lt_trans, str_lt_asymm, str_lt-total}

-- `_fields[name] = value` on the `std::map`.
unfoldable pub set : List ℕ → Field → FieldMap → FieldMap
set name value empty = entry name value empty
set name value (entry k f m) =
    if str_lt name k
    then entry name value (entry k f m)
    else (if str_lt k name then entry k f (set name value m) else entry k value m)

unfoldable pub find : List ℕ → FieldMap → Option Field
find name empty = none
find name (entry k f m) =
    if str_lt name k then none else (if str_lt k name then find name m else some f)

-- `get` answers an empty short string for a name that is not there.
unfoldable pub get : List ℕ → FieldMap → Field
unfolding find
get name m = elim (find name m) [ none ↦ short_string [] | some f ↦ f ]

unfoldable pub contains : List ℕ → FieldMap → Bool
unfolding find
contains name m = elim (find name m) [ none ↦ false | some f ↦ true ]

unfoldable pub keys : FieldMap → List (List ℕ)
keys empty = []
keys (entry k f m) = k ∷ keys m

abbrev pub Above : List ℕ → FieldMap → Type 0
Above k empty = Unit {0}
Above k (entry j f m) = str_lt k j ≡ true

-- The invariant of the map: its keys rise strictly.
abbrev pub IsSorted : FieldMap → Type 0
IsSorted empty = Unit {0}
IsSorted (entry k f m) = Above k m × IsSorted m

pub find-set_self :
    (name : List ℕ) (value : Field) (m : FieldMap) → find name (set name value m) ≡ some value
unfolding find set
find-set_self name value empty = ground (arith, str_lt_irrefl name)
find-set_self name value (entry k f m) =
    ground (arith, str_lt_irrefl name, find-set_self name value m)

pub find-set_ne :
    (name other : List ℕ) (value : Field) (m : FieldMap)
    → name ≢ other
    → find other (set name value m) ≡ find other m
unfolding find set
find-set_ne name other value empty h = ground (arith, str_lt-total name other)
find-set_ne name other value (entry k f m) h = ground (
  arith,
  str_lt-total name other,
  str_lt-total name k,
  str_lt_trans other name k,
  find-set_ne name other value m h,
)

-- An assigned name has the new value, and every other name answers what it answered before.
pub get-set_entry :
    (name other : List ℕ) (value : Field) (m : FieldMap)
    → name ≢ other
    → (get name (set name value m) ≡ value) × (get other (set name value m) ≡ get other m)
unfolding get
get-set_entry name other value m h =
    (rw (find-set_self name value m, get), rw (find-set_ne name other value m h, get))

abbrev pub append : FieldMap → FieldMap → FieldMap
append empty n = n
append (entry k f m) n = entry k f (append m n)

pub append-empty : (m : FieldMap) → append m empty ≡ m
append-empty empty = refl
append-empty (entry k f m) = cc (append-empty m)

pub append_assoc : (a b c : FieldMap) → append (append a b) c ≡ append a (append b c)
append_assoc empty b c = refl
append_assoc (entry k f a) b c = cc (append_assoc a b c)

-- An entry whose key follows all the others goes to the end.
first-lt :
    (j : List ℕ) (acc : FieldMap) (k : List ℕ) (f : Field) (m : FieldMap)
    → Above j (append acc (entry k f m))
    → IsSorted (append acc (entry k f m))
    → str_lt j k ≡ true
first-lt j empty k f m a s = a
first-lt j (entry i g acc) k f m a s = str_lt_trans j i k a (first-lt i acc k f m s.0 s.1)

pub set-append :
    (acc : FieldMap) (k : List ℕ) (f : Field) (m : FieldMap)
    → IsSorted (append acc (entry k f m))
    → set k f acc ≡ append acc (entry k f empty)
unfolding set
set-append empty k f m s = refl
set-append (entry j g acc) k f m s =
    ground (arith, first-lt j acc k f m s.0 s.1, str_lt_asymm j k, set-append acc k f m s.1)

-- `Array::set`: an index behind the end appends.
unfoldable pub array_set : FieldArray → ℕ → Field → FieldArray
array_set nil i value = cons value nil
array_set (cons f items) zero value = cons value items
array_set (cons f items) (suc i) value = cons f (array_set items i value)

unfoldable pub array_get : FieldArray → ℕ → Field
array_get nil i = short_string []
array_get (cons f items) zero = f
array_get (cons f items) (suc i) = array_get items i

unfoldable pub count : FieldArray → ℕ
count nil = 0
count (cons f items) = suc (count items)

unfoldable pub push_back : FieldArray → Field → FieldArray
push_back nil value = cons value nil
push_back (cons f items) value = cons f (push_back items value)

abbrev pub array_append : FieldArray → FieldArray → FieldArray
array_append nil b = b
array_append (cons f a) b = cons f (array_append a b)

pub array_append-nil : (a : FieldArray) → array_append a nil ≡ a
array_append-nil nil = refl
array_append-nil (cons f a) = cc (array_append-nil a)

pub array_append-push_back :
    (a : FieldArray) (f : Field) (b : FieldArray)
    → array_append (push_back a f) b ≡ array_append a (cons f b)
unfolding push_back
array_append-push_back nil f b = refl
array_append-push_back (cons g a) f b = cc (array_append-push_back a f b)
