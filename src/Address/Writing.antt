-- ===== src/Address/Writing.antt =====
-- The two ways in which include/amqpcpp/address.h writes an address.
use amqp_cpp.Base.{
  ℕ, zero, suc, ◌+◌, ◌/◌, ◌%◌, not, ltb, ◌==◌, if◌then◌else◌, Bool, List, [], ◌∷◌, ◌++◌,
}
use amqp_cpp.Login.{is_given, str_eq, write_login}
use amqp_cpp.Address.{Address, Options, amqp, amqps, default_port}

-- `std::to_string` of a `uint16_t`, which has at most five digits.
unfoldable pub digits : ℕ → ℕ → List ℕ → List ℕ
digits zero n out = out
digits (suc k) n out =
    let more = digits k (n / 10) ((b'0' + n % 10) ∷ out) in
    if ltb n 10 then (b'0' + n) ∷ out else more

unfoldable pub to_string : ℕ → List ℕ
unfolding digits
to_string n = digits 5 n []

-- The options behind one another, with '&' in between.
unfoldable pub write_options : Options → List ℕ
write_options [] = []
write_options (o ∷ []) = o.0 ++ (b'=' ∷ o.1)
write_options (o ∷ p ∷ os) = o.0 ++ (b'=' ∷ (o.1 ++ (b'&' ∷ write_options (p ∷ os))))

-- What both ways of writing have behind the hostname.
unfoldable pub write_port : ℕ → ℕ → List ℕ
unfolding to_string
write_port default port = if not (port == default) then b':' ∷ to_string port else []

unfoldable pub write_vhost : List ℕ → List ℕ
unfolding str_eq
write_vhost vhost = b'/' ∷ (if not (str_eq vhost (b'/' ∷ [])) then vhost else [])

unfoldable pub write_query : Options → List ℕ
unfolding write_options
write_query [] = []
write_query (o ∷ os) = b'?' ∷ write_options (o ∷ os)

unfoldable pub write_scheme : Bool → List ℕ
write_scheme secure = if secure then amqps else amqp

-- `operator std::string`.
unfoldable pub cast_to_string : Address → List ℕ
unfolding write_scheme write_port write_vhost write_query
cast_to_string a =
    write_scheme a.secure
    ++ (a.login.user
        ++ (b':'
            ∷ (a.login.password
                ++ (b'@'
                    ∷ (a.hostname
                        ++ (write_port 5672 a.port
                            ++ (write_vhost a.vhost ++ write_query a.options)))))))

-- `operator<<`.
unfoldable pub stream : Address → List ℕ
unfolding write_scheme is_given write_login write_port default_port write_vhost write_query
stream a =
    write_scheme a.secure
    ++ ((if is_given a.login then write_login a.login ++ (b'@' ∷ []) else [])
        ++ (a.hostname
            ++ (write_port (default_port a.secure) a.port
                ++ (write_vhost a.vhost ++ write_query a.options))))
