-- ===== src/Login.antt =====
-- include/amqpcpp/login.h: the user and the password.
use amqp_cpp.Base.{ℕ, Bool, true, false, not, ◌&&◌, ◌||◌, ◌==◌, if◌then◌else◌, List, [], ◌∷◌, ◌++◌}
use amqp_cpp.Connection.{is_empty}
use amqp_cpp.Field.Keys.{str_lt}

pub record Login : Type 0 where
  pub user : List ℕ
  pub password : List ℕ

abbrev pub guest : List ℕ
guest = b'g' ∷ b'u' ∷ b'e' ∷ b's' ∷ b't' ∷ []

abbrev pub default_login : Login
default_login = record { user = guest; password = guest }

-- The test `operator bool`.
unfoldable pub is_given : Login → Bool
is_given l = not (is_empty l.user) || not (is_empty l.password)

-- The string of the SASL mechanism PLAIN.
unfoldable pub sasl_plain : Login → List ℕ
sasl_plain l = 0 ∷ l.user ++ (0 ∷ l.password)

-- `==` on `std::string`.
unfoldable pub str_eq : List ℕ → List ℕ → Bool
str_eq [] [] = true
str_eq [] (y ∷ ys) = false
str_eq (x ∷ xs) [] = false
str_eq (x ∷ xs) (y ∷ ys) = x == y && str_eq xs ys

unfoldable pub login_eq : Login → Login → Bool
unfolding str_eq
login_eq a b = str_eq a.user b.user && str_eq a.password b.password

unfoldable pub login_lt : Login → Login → Bool
unfolding str_eq str_lt
login_lt a b =
    if not (str_eq a.user b.user) then str_lt a.user b.user else str_lt a.password b.password

-- What `operator<<` writes.
unfoldable pub write_login : Login → List ℕ
write_login l = l.user ++ (b':' ∷ l.password)
