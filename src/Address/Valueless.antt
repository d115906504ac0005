-- ===== src/Address/Valueless.antt =====
-- Options without a value, in the constructor of include/amqpcpp/address.h.
use amqp_cpp.Base.{◌≡◌, refl, Bool, List, ◌∷◌, ◌++◌, some, ℕ}
use amqp_cpp.Login.{Login}
use amqp_cpp.Address.{length_error, memchr, build, parse_place, parse_address}
use amqp_cpp.Address.Writing.{write_scheme}
use amqp_cpp.Address.Search.{Lacks, memchr-append}
use amqp_cpp.Address.Query.{parse_options-valueless}
use amqp_cpp.Address.RoundTrip.{split_login_lem, scheme_lem}

place_lem :
    (secure : Bool) (login : Login) (host vhost name key value : List ℕ)
    → Lacks b'/' host
    → Lacks b'?' vhost
    → Lacks b'=' name
    → Lacks b'&' name
    → Lacks b'=' key
    → let query = name ++ (b'&' ∷ (key ++ (b'=' ∷ value))) in
      let place = host ++ (b'/' ∷ (vhost ++ (b'?' ∷ query))) in
      parse_place secure login place (memchr b'/' place) ≡ some length_error
unfolding parse_place build
place_lem secure login host vhost name key value h v n a k =
    let query = name ++ (b'&' ∷ (key ++ (b'=' ∷ value))) in
    simp
      (
        memchr-append b'/' host (vhost ++ (b'?' ∷ query)) h,
        parse_options-valueless vhost name key value v n a k,
      )
      refl

-- An address with a login and a vhost, no part of which holds the sign that ends it, and with options of
-- which the first has no value and the next one does, as in "?name&key=value": the constructor ends with
-- the exception of `std::string` on a length that is negative.
pub parse_address-valueless :
    (secure : Bool) (login : Login) (host vhost name key value : List ℕ)
    → Lacks b'@' login.user
    → Lacks b':' login.user
    → Lacks b'@' login.password
    → Lacks b'/' host
    → Lacks b'?' vhost
    → Lacks b'=' name
    → Lacks b'&' name
    → Lacks b'=' key
    → let query = name ++ (b'&' ∷ (key ++ (b'=' ∷ value))) in
      let place = host ++ (b'/' ∷ (vhost ++ (b'?' ∷ query))) in
      parse_address
        (write_scheme secure ++ (login.user ++ (b':' ∷ (login.password ++ (b'@' ∷ place)))))
      ≡ some length_error
parse_address-valueless secure login host vhost name key value u c p h v n a k =
    let query = name ++ (b'&' ∷ (key ++ (b'=' ∷ value))) in
    let place = host ++ (b'/' ∷ (vhost ++ (b'?' ∷ query))) in
    scheme_lem secure login _ place _ (split_login_lem login place u c p)
      (place_lem secure login host vhost name key value h v n a k)
