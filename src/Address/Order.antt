-- ===== src/Address/Order.antt =====
-- `operator==` and `operator<` of include/amqpcpp/address.h.
use amqp_cpp.Base.{
  ℕ, ◌≡◌, refl, Bool, true, false, not, ◌&&◌, ◌||◌, ltb, ◌==◌, if◌then◌else◌, List, [], ◌∷◌, arith,
}
use amqp_cpp.Field.Keys.{str_lt, str_lt_asymm}
use amqp_cpp.Login.{str_eq, login_eq, login_lt}
use amqp_cpp.Address.{Address, Options, folded, icase_lt}

-- `==` and `<` on the maps of options: pairs in order.
unfoldable pub options_eq : Options → Options → Bool
unfolding str_eq
options_eq [] [] = true
options_eq [] (p ∷ ps) = false
options_eq (o ∷ os) [] = false
options_eq (o ∷ os) (p ∷ ps) = str_eq o.0 p.0 && str_eq o.1 p.1 && options_eq os ps

unfoldable pub pair_lt : List ℕ × List ℕ → List ℕ × List ℕ → Bool
unfolding str_lt
pair_lt o p = str_lt o.0 p.0 || (not (str_lt p.0 o.0) && str_lt o.1 p.1)

unfoldable pub options_lt : Options → Options → Bool
unfolding pair_lt
options_lt os [] = false
options_lt [] (p ∷ ps) = true
options_lt (o ∷ os) (p ∷ ps) =
    if pair_lt o p then true else (if pair_lt p o then false else options_lt os ps)

-- `strcasecmp(…) == 0`.
unfoldable pub icase_eq : List ℕ → List ℕ → Bool
unfolding folded str_eq
icase_eq lhs rhs = str_eq (folded lhs) (folded rhs)

unfoldable pub bool_eq : Bool → Bool → Bool
bool_eq true b = b
bool_eq false b = not b

unfoldable pub address_eq : Address → Address → Bool
unfolding bool_eq login_eq icase_eq str_eq options_eq
address_eq a b =
    bool_eq a.secure b.secure
    && login_eq a.login b.login
    && icase_eq a.hostname b.hostname
    && a.port == b.port
    && str_eq a.vhost b.vhost
    && options_eq a.options b.options

unfoldable pub address_lt : Address → Address → Bool
unfolding bool_eq login_eq login_lt icase_eq icase_lt str_lt options_lt
address_lt a b =
    if not (bool_eq a.secure b.secure)
    then not a.secure
    else if not (login_eq a.login b.login)
    then login_lt a.login b.login
    else if not (icase_eq a.hostname b.hostname)
    then icase_lt a.hostname b.hostname
    else if not (a.port == b.port)
    then ltb a.port b.port
    else if str_lt a.vhost b.vhost
    then str_lt a.vhost b.vhost
    else options_lt a.options b.options

str_eq_refl : (xs : List ℕ) → str_eq xs xs ≡ true
unfolding str_eq
str_eq_refl [] = refl
str_eq_refl (x ∷ xs) = ground (arith, str_eq_refl xs)

bool_eq_refl : (b : Bool) → bool_eq b b ≡ true
unfolding bool_eq
bool_eq_refl true = refl
bool_eq_refl false = refl

-- Two addresses that differ in vhost and options only, the first of them with the greater vhost and the
-- smaller options: each is below the other, so that `operator<` is no order that containers can use.
pub address_lt-both :
    (a : Address) (vhost : List ℕ) (options : Options)
    → str_lt vhost a.vhost ≡ true
    → options_lt a.options options ≡ true
    → let b = record a { vhost = vhost; options = options } in
      (address_lt a b ≡ true) × (address_lt b a ≡ true)
unfolding address_lt login_eq icase_eq
address_lt-both a vhost options v o =
    let not_below = str_lt_asymm vhost a.vhost v in
    let secure = bool_eq_refl a.secure in
    let user = str_eq_refl a.login.user in
    let password = str_eq_refl a.login.password in
    let host = str_eq_refl (folded a.hostname) in
    let port : (a.port == a.port) ≡ true = ground arith in
    (
      simp (secure, user, password, host, port, not_below) o,
      simp (secure, user, password, host, port, v) refl,
    )
