-- ===== src/Field/BooleanSet.antt =====
-- include/amqpcpp/booleanset.h: up to eight booleans in one byte.
use Prim.Native.Nat.{bit_and, bit_or, bit_xor}
use native.Mathlib.Nat.{add-suc, suc-add}
use native.Mathlib.Decide.{dec_lt}
use amqp_cpp.Base.{
  ℕ, zero, suc, ◌^◌, ◌≤◌, ◌<◌, ◌≡◌, refl, Bool, true, false, not, ltb, ◌==◌, ltb→lt, length, ◌+◌,
  ◌∙◌, sym, if◌then◌else◌, List, [], ◌∷◌, arith,
}

-- `0 != ((1 << index) & _byte)`
unfoldable pub get : ℕ → ℕ → Bool
get byte index = if ltb 7 index then false else not (bit_and (2 ^ index) byte == 0)

unfoldable pub set : ℕ → ℕ → Bool → ℕ
set byte index value =
    if ltb 7 index
    then byte
    else (if value then bit_or byte (2 ^ index) else bit_and byte (bit_xor 0xff (2 ^ index)))

set_all : ℕ → ℕ → List Bool → ℕ
unfolding set
set_all byte index [] = byte
set_all byte index (v ∷ vs) = set_all (set byte index v) (suc index) vs

-- The constructor from booleans: the first into bit 0, and those that are left out are false.
unfoldable pub from_bools : List Bool → ℕ
unfolding set_all
from_bools vs = set_all 0 0 vs

-- A test that passes for every number below a bound, by running it.
passes : ℕ → (ℕ → Bool) → Bool
passes zero test = true
passes (suc k) test = if test k then passes k test else false

passes_at : (k : ℕ) (test : ℕ → Bool) → passes k test ≡ true → (i : ℕ) → i < k → test i ≡ true
unfolding passes
passes_at (suc k) test run i b = ground (arith, passes_at k test _ i)
passes_at zero test run i b = absurd (omega arith)

eqb : Bool → Bool → Bool
eqb true b = b
eqb false b = not b

eqb→eq : (a b : Bool) → eqb a b ≡ true → a ≡ b
unfolding eqb
eqb→eq true b h = ground arith
eqb→eq false b h = ground arith

-- What a set bit reads as, at every other index and every byte.
law_at : Bool → ℕ → ℕ → ℕ → Bool
unfolding get set eqb
law_at v i j byte = eqb (get (set byte i v) j) (if i == j then v else get byte j)

law_table : (v : Bool) → passes 8 (λ i. passes 8 (λ j. passes 256 (law_at v i j))) ≡ true
unfolding passes law_at
law_table true = refl
law_table false = refl

in_byte : (v : Bool) → passes 8 (λ i. passes 256 (λ byte. ltb (set byte i v) 256)) ≡ true
unfolding passes set
in_byte true = refl
in_byte false = refl

get-set_low :
    (byte i j : ℕ) (v : Bool)
    → byte < 256
    → i < 8
    → j < 8
    → get (set byte i v) j ≡ (if i == j then v else get byte j)
unfolding law_at
get-set_low byte i j v hb hi hj =
    eqb→eq _ _ (passes_at 256 _ (passes_at 8 _ (passes_at 8 _ (law_table v) i hi) j hj) byte hb)

get_high : (byte j : ℕ) → 8 ≤ j → get byte j ≡ false
unfolding get
get_high byte j h = ground arith

-- For a byte and an index that it has: reading any index after a write gives the written value at
-- that index, and what stood there before elsewhere.
pub get-set :
    (byte i j : ℕ) (v : Bool)
    → byte < 256
    → i < 8
    → get (set byte i v) j ≡ (if i == j then v else get byte j)
get-set byte i j v hb hi =
    ground (arith, get_high (set byte i v) j, get_high byte j, get-set_low byte i j v)

set_low-lt : (byte i : ℕ) (v : Bool) → byte < 256 → i < 8 → set byte i v < 256
set_low-lt byte i v hb hi = ltb→lt _ _ (passes_at 256 _ (passes_at 8 _ (in_byte v) i hi) byte hb)

set_high : (byte i : ℕ) (v : Bool) → 8 ≤ i → set byte i v ≡ byte
unfolding set
set_high byte i v h = ground arith

pub set-lt : (byte i : ℕ) (v : Bool) → byte < 256 → set byte i v < 256
set-lt byte i v hb = ground (arith, set_low-lt byte i v, set_high byte i v)

set_all-lt : (byte index : ℕ) (vs : List Bool) → byte < 256 → set_all byte index vs < 256
unfolding set_all
set_all-lt byte index [] h = h
set_all-lt byte index (v ∷ vs) h =
    set_all-lt (set byte index v) (suc index) vs (set-lt byte index v h)

pub from_bools-lt : (vs : List Bool) → from_bools vs < 256
unfolding from_bools
from_bools-lt vs = set_all-lt 0 0 vs (omega arith)

-- The value at a position, false behind the end.
abbrev pub bool_at : List Bool → ℕ → Bool
bool_at [] i = false
bool_at (v ∷ vs) zero = v
bool_at (v ∷ vs) (suc i) = bool_at vs i

-- Writing positions from `k` on leaves those below `k`, writes the list, and leaves those behind it.
get-set_all_below :
    (vs : List Bool) (byte k j : ℕ)
    → byte < 256
    → length vs + k ≤ 8
    → j < k
    → get (set_all byte k vs) j ≡ get byte j
unfolding set_all
get-set_all_below [] byte k j h r lt = refl
get-set_all_below (v ∷ vs) byte k j h r lt =
    get-set_all_below vs (set byte k v) (suc k) j (set-lt byte k v h) (omega arith) (omega arith)
    ∙ ground (arith, get-set byte k j v)

get-set_all_within :
    (vs : List Bool) (byte k d : ℕ)
    → byte < 256
    → length vs + k ≤ 8
    → d < length vs
    → get (set_all byte k vs) (k + d) ≡ bool_at vs d
unfolding set_all
get-set_all_within [] byte k d h r lt = elim lt [ ]
get-set_all_within (v ∷ vs) byte k zero h r lt =
    get-set_all_below vs (set byte k v) (suc k) (k + 0) (set-lt byte k v h) (omega arith)
      (omega arith)
    ∙ ground (arith, get-set byte k (k + 0) v)
get-set_all_within (v ∷ vs) byte k (suc d) h r lt = rw add-suc (
    rw (← suc-add) (
      get-set_all_within vs (set byte k v) (suc k) d (set-lt byte k v h) (omega arith)
        (omega arith)))

get-set_all_above :
    (vs : List Bool) (byte k j : ℕ)
    → byte < 256
    → length vs + k ≤ 8
    → length vs + k ≤ j
    → get (set_all byte k vs) j ≡ get byte j
unfolding set_all
get-set_all_above [] byte k j h r le = refl
get-set_all_above (v ∷ vs) byte k j h r le =
    get-set_all_above vs (set byte k v) (suc k) j (set-lt byte k v h) (omega arith) (omega arith)
    ∙ ground (arith, get-set byte k j v)

get_zero_table : passes 8 (λ j. not (get 0 j)) ≡ true
unfolding passes get
get_zero_table = refl

get_zero : (j : ℕ) → get 0 j ≡ false
get_zero j = ground (arith, get_high 0 j, passes_at 8 _ get_zero_table j)

bool_at_end : (vs : List Bool) (j : ℕ) → length vs ≤ j → bool_at vs j ≡ false
bool_at_end [] j h = refl
bool_at_end (v ∷ vs) zero h = absurd (omega arith)
bool_at_end (v ∷ vs) (suc j) h = bool_at_end vs j (omega arith)

-- The eight accessors read back the arguments of the constructor, and false for those left out.
pub get-from_bools : (vs : List Bool) (j : ℕ) → length vs ≤ 8 → get (from_bools vs) j ≡ bool_at vs j
unfolding from_bools
get-from_bools vs j r = elim (dec_lt j (length vs)) [
  | yes h ↦ ground (arith, get-set_all_within vs 0 0 j)
  | no h ↦
      get-set_all_above vs 0 0 j (omega arith) (omega arith) (omega arith)
      ∙ get_zero j
      ∙ sym (bool_at_end vs j (omega arith))
]
