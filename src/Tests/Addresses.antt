-- ===== src/Tests/Addresses.antt =====
-- Runs of the models of include/amqpcpp/address.h at concrete addresses.
use amqp_cpp.Base.{◌≡◌, refl, true, false, [], ◌∷◌, some, arith}
use amqp_cpp.Login.{guest, is_given, str_eq}
use amqp_cpp.Field.Keys.{str_lt}
use amqp_cpp.Address.{Address, icase_lt, constructed, length_error, parse_address}
use amqp_cpp.Address.Writing.{cast_to_string, stream}
use amqp_cpp.Address.Total.{Ends, parse_address-Ends}
use amqp_cpp.Address.Valueless.{parse_address-valueless}
use amqp_cpp.Address.Writing.{write_scheme}
use amqp_cpp.Address.RoundTrip.{
  IsWritable, reread, parse_address-stream, parse_address-cast_to_string,
}
use amqp_cpp.Address.Order.{address_lt, options_lt, address_lt-both}

-- amqps://u:p@h:5672/v?a=1&B=
abbrev server : Address
server = record {
  secure = true;
  login = record { user = b'u' ∷ []; password = b'p' ∷ [] };
  hostname = b'h' ∷ [];
  port = 5672;
  vhost = b'v' ∷ [];
  options = (b'a' ∷ [], b'1' ∷ []) ∷ (b'B' ∷ [], []) ∷ [];
}

server_text :
    stream server
    ≡ b'a' ∷ b'm' ∷ b'q' ∷ b'p' ∷ b's' ∷ b':' ∷ b'/' ∷ b'/' ∷ b'u' ∷ b':' ∷ b'p' ∷ b'@' ∷ b'h'
      ∷ b':' ∷ b'5' ∷ b'6' ∷ b'7' ∷ b'2' ∷ b'/' ∷ b'v' ∷ b'?' ∷ b'a' ∷ b'=' ∷ b'1' ∷ b'&' ∷ b'B'
      ∷ b'=' ∷ []
unfolding stream
server_text = refl

-- amqp://hserver-IsWritable, an address without a slash.
query_in_host :
    parse_address (b'a' ∷ b'm' ∷ b'q' ∷ b'p' ∷ b':' ∷ b'/' ∷ b'/' ∷ b'h' ∷ b'?' ∷ b'x' ∷ [])
    ≡ some (
        constructed (record {
          secure = false;
          login = record { user = guest; password = guest };
          hostname = b'h' ∷ b'?' ∷ b'x' ∷ [];
          port = 5672;
          vhost = b'/' ∷ [];
          options = [];
        }))
unfolding parse_address
query_in_host = refl

-- amqp://h/server-IsWritable=y, whose vhost is empty.
default_vhost_lost :
    parse_address (
      b'a' ∷ b'm' ∷ b'q' ∷ b'p' ∷ b':' ∷ b'/' ∷ b'/' ∷ b'h' ∷ b'/' ∷ b'?' ∷ b'x' ∷ b'=' ∷ b'y' ∷ [])
    ≡ some (
        constructed (record {
          secure = false;
          login = record { user = guest; password = guest };
          hostname = b'h' ∷ [];
          port = 5672;
          vhost = [];
          options = (b'x' ∷ [], b'y' ∷ []) ∷ [];
        }))
unfolding parse_address
default_vhost_lost = refl

parse_address-Ends_example : Ends (parse_address (stream server))
parse_address-Ends_example = parse_address-Ends (stream server)

server-IsWritable : IsWritable server
unfolding icase_lt
server-IsWritable = (
  (refl, tt),
  (refl, tt),
  (refl, tt),
  (refl, tt),
  (refl, tt),
  omega arith,
  (refl, tt),
  (((refl, tt), (refl, tt), (refl, tt)), (((refl, tt), (refl, tt), tt), tt)),
  ((refl, tt), (tt, tt)),
)

parse_address-stream_example : parse_address (stream server) ≡ some (constructed server)
unfolding str_eq is_given
parse_address-stream_example = parse_address-stream server server-IsWritable refl refl

parse_address-cast_to_string_example :
    parse_address (cast_to_string server) ≡ some (constructed (reread 5672 server))
unfolding str_eq
parse_address-cast_to_string_example = parse_address-cast_to_string server server-IsWritable refl

-- amqps://u:p@h/v?a&b=c
parse_address-valueless_example :
    parse_address (
      b'a' ∷ b'm' ∷ b'q' ∷ b'p' ∷ b's' ∷ b':' ∷ b'/' ∷ b'/' ∷ b'u' ∷ b':' ∷ b'p' ∷ b'@' ∷ b'h'
      ∷ b'/' ∷ b'v' ∷ b'?' ∷ b'a' ∷ b'&' ∷ b'b' ∷ b'=' ∷ b'c' ∷ [])
    ≡ some length_error
unfolding write_scheme
parse_address-valueless_example =
    parse_address-valueless true server.login (b'h' ∷ []) (b'v' ∷ []) (b'a' ∷ []) (b'b' ∷ [])
      (b'c' ∷ []) (refl, tt) (refl, tt) (refl, tt) (refl, tt) (refl, tt) (refl, tt) (refl, tt)
      (refl, tt)

address_lt-both_example :
    let other = record server { vhost = b'a' ∷ []; options = (b'z' ∷ [], []) ∷ [] } in
    (address_lt server other ≡ true) × (address_lt other server ≡ true)
unfolding str_lt options_lt
address_lt-both_example = address_lt-both server (b'a' ∷ []) ((b'z' ∷ [], []) ∷ []) refl refl
