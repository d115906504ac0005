-- ===== src/Field/Keys.antt =====
-- The order of `std::map` keys: `std::string` by its bytes, a proper prefix first.
use amqp_cpp.Base.{ℕ, ◌≡◌, refl, Bool, true, false, ltb, ◌==◌, if◌then◌else◌, List, [], ◌∷◌, arith}

unfoldable pub str_lt : List ℕ → List ℕ → Bool
str_lt xs [] = false
str_lt [] (y ∷ ys) = true
str_lt (x ∷ xs) (y ∷ ys) = if x == y then str_lt xs ys else ltb x y

pub str_lt_irrefl : (xs : List ℕ) → str_lt xs xs ≡ false
unfolding str_lt
str_lt_irrefl [] = refl
str_lt_irrefl (x ∷ xs) = ground (arith, str_lt_irrefl xs)

pub str_lt_trans :
    (xs ys zs : List ℕ) → str_lt xs ys ≡ true → str_lt ys zs ≡ true → str_lt xs zs ≡ true
unfolding str_lt
str_lt_trans xs ys [] h k = ground arith
str_lt_trans xs [] (z ∷ zs) h k = ground arith
str_lt_trans [] (y ∷ ys) (z ∷ zs) h k = refl
str_lt_trans (x ∷ xs) (y ∷ ys) (z ∷ zs) h k = ground (arith, str_lt_trans xs ys zs)

pub str_lt_asymm : (xs ys : List ℕ) → str_lt xs ys ≡ true → str_lt ys xs ≡ false
unfolding str_lt
str_lt_asymm xs [] h = ground arith
str_lt_asymm [] (y ∷ ys) h = refl
str_lt_asymm (x ∷ xs) (y ∷ ys) h = ground (arith, str_lt_asymm xs ys)

-- Of two strings neither of which is below the other, each is the other.
pub str_lt-total : (xs ys : List ℕ) → str_lt xs ys ≡ false → str_lt ys xs ≡ false → xs ≡ ys
unfolding str_lt
str_lt-total [] [] h k = refl
str_lt-total [] (y ∷ ys) h k = ground arith
str_lt-total (x ∷ xs) [] h k = ground arith
str_lt-total (x ∷ xs) (y ∷ ys) h k = ground (arith, str_lt-total xs ys)
