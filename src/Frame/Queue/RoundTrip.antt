-- ===== src/Frame/Queue/RoundTrip.antt =====
-- The queue methods, src/queue*frame.h: their sizes, and writing and reading.
use amqp_cpp.Base.{◌^◌, ◌<◌, ◌≡◌, refl, ◌++◌, length, length-append, arith}
use amqp_cpp.Wire.{add_uint8, add_uint16, add_int16, add_int32}
use amqp_cpp.Wire.Reads.{Reads, Reads-pure, Reads-bind, Reads-map}
use amqp_cpp.Wire.Primitives.{
  Reads-uint8, Reads-uint16, Reads-int16, Reads-int32, length-add_uint8, length-add_uint16,
  length-add_int16, length-add_int32,
}
use amqp_cpp.Field.{fill_table, fill_short_string, short_string_size, long_string_size}
use amqp_cpp.Field.Size.{length-fill_table, length-fill_short_string}
use amqp_cpp.Field.RoundTrip.{Reads-short_string, Reads-read_table}
use amqp_cpp.Frame.Queue.{
  QueueMethod, method_id, arguments_size, fill_arguments, read_method, IsValid, IsWritten, declare,
  declare_ok, bind, bind_ok, purge, purge_ok, delete, delete_ok, unbind, unbind_ok,
}

-- The size is the number of bytes that `fill` writes, below 2 ^ 32.
pub length-fill_arguments :
    (m : QueueMethod)
    → IsValid m
    → IsWritten m
    → length (fill_arguments m) < 2 ^ 32
    → length (fill_arguments m) ≡ arguments_size m
unfolding fill_arguments arguments_size short_string_size long_string_size
length-fill_arguments (declare deprecated name bools arguments) h w b = omega (
  arith,
  length-add_int16 deprecated,
  length-append (add_int16 deprecated)
      (fill_short_string name ++ (add_uint8 bools ++ fill_table arguments)),
  length-fill_short_string name,
  length-append (fill_short_string name) (add_uint8 bools ++ fill_table arguments),
  length-add_uint8 bools,
  length-append (add_uint8 bools) (fill_table arguments),
  length-fill_table arguments h.3.0,
)
length-fill_arguments (declare_ok name message_count consumer_count) h w b = omega (
  arith,
  length-fill_short_string name,
  length-append (fill_short_string name) (add_int32 message_count ++ add_int32 consumer_count),
  length-add_int32 message_count,
  length-append (add_int32 message_count) (add_int32 consumer_count),
  length-add_int32 consumer_count,
)
length-fill_arguments (bind deprecated name exchange routing_key no_wait arguments) h w b = omega (
  arith,
  length-add_uint16 deprecated,
  length-append (add_uint16 deprecated) (
      fill_short_string name
      ++ (fill_short_string exchange
          ++ (fill_short_string routing_key ++ (add_uint8 no_wait ++ fill_table arguments)))),
  length-fill_short_string name,
  length-append (fill_short_string name) (
      fill_short_string exchange
      ++ (fill_short_string routing_key ++ (add_uint8 no_wait ++ fill_table arguments))),
  length-fill_short_string exchange,
  length-append (fill_short_string exchange)
      (fill_short_string routing_key ++ (add_uint8 no_wait ++ fill_table arguments)),
  length-fill_short_string routing_key,
  length-append (fill_short_string routing_key) (add_uint8 no_wait ++ fill_table arguments),
  length-add_uint8 no_wait,
  length-append (add_uint8 no_wait) (fill_table arguments),
  length-fill_table arguments h.5.0,
)
length-fill_arguments bind_ok h w b = refl
length-fill_arguments (purge deprecated name no_wait) h w b = omega (
  arith,
  length-add_int16 deprecated,
  length-append (add_int16 deprecated) (fill_short_string name ++ add_uint8 no_wait),
  length-fill_short_string name,
  length-append (fill_short_string name) (add_uint8 no_wait),
  length-add_uint8 no_wait,
)
length-fill_arguments (purge_ok message_count) h w b = omega (arith, length-add_int32 message_count)
length-fill_arguments (delete deprecated name bools) h w b = omega (
  arith,
  length-add_int16 deprecated,
  length-append (add_int16 deprecated) (fill_short_string name ++ add_uint8 bools),
  length-fill_short_string name,
  length-append (fill_short_string name) (add_uint8 bools),
  length-add_uint8 bools,
)
length-fill_arguments (delete_ok message_count) h w b =
    omega (arith, length-add_int32 message_count)
length-fill_arguments (unbind deprecated name exchange routing_key arguments) h w b = omega (
  arith,
  length-add_int16 deprecated,
  length-append (add_int16 deprecated) (
      fill_short_string name
      ++ (fill_short_string exchange ++ (fill_short_string routing_key ++ fill_table arguments))),
  length-fill_short_string name,
  length-append (fill_short_string name)
      (fill_short_string exchange ++ (fill_short_string routing_key ++ fill_table arguments)),
  length-fill_short_string exchange,
  length-append (fill_short_string exchange)
      (fill_short_string routing_key ++ fill_table arguments),
  length-fill_short_string routing_key,
  length-append (fill_short_string routing_key) (fill_table arguments),
  length-fill_table arguments h.4.0,
)
length-fill_arguments unbind_ok h w b = refl

-- A queue method whose values its class can hold is read from its id and its arguments.
pub Reads-read_method :
    (m : QueueMethod)
    → IsValid m
    → Reads read_method (add_uint16 (method_id m) ++ fill_arguments m) m
unfolding read_method method_id fill_arguments
Reads-read_method (declare deprecated name bools arguments) h =
    Reads-bind _ (Reads-uint16 10 (omega arith)) (
      Reads-bind _ (Reads-int16 deprecated h.0) (
        Reads-bind _ (Reads-short_string name h.1) (
          Reads-bind _ (Reads-uint8 bools h.2) (
            Reads-map (λ arguments. (declare deprecated name bools arguments))
              (Reads-read_table arguments h.3.0 h.3.1)))))
Reads-read_method (declare_ok name message_count consumer_count) h =
    Reads-bind _ (Reads-uint16 11 (omega arith)) (
      Reads-bind _ (Reads-short_string name h.0) (
        Reads-bind _ (Reads-int32 message_count h.1) (
          Reads-map (λ consumer_count. (declare_ok name message_count consumer_count))
            (Reads-int32 consumer_count h.2))))
Reads-read_method (bind deprecated name exchange routing_key no_wait arguments) h =
    Reads-bind _ (Reads-uint16 20 (omega arith)) (
      Reads-bind _ (Reads-uint16 deprecated h.0) (
        Reads-bind _ (Reads-short_string name h.1) (
          Reads-bind _ (Reads-short_string exchange h.2) (
            Reads-bind _ (Reads-short_string routing_key h.3) (
              Reads-bind _ (Reads-uint8 no_wait h.4) (
                Reads-map
                  (λ arguments. (bind deprecated name exchange routing_key no_wait arguments))
                  (Reads-read_table arguments h.5.0 h.5.1)))))))
Reads-read_method bind_ok h = Reads-bind _ (Reads-uint16 21 (omega arith)) (Reads-pure bind_ok)
Reads-read_method (purge deprecated name no_wait) h = Reads-bind _ (Reads-uint16 30 (omega arith)) (
    Reads-bind _ (Reads-int16 deprecated h.0) (
      Reads-bind _ (Reads-short_string name h.1)
        (Reads-map (λ no_wait. (purge deprecated name no_wait)) (Reads-uint8 no_wait h.2))))
Reads-read_method (purge_ok message_count) h =
    Reads-bind _ (Reads-uint16 31 (omega arith))
      (Reads-map (λ message_count. (purge_ok message_count)) (Reads-int32 message_count h))
Reads-read_method (delete deprecated name bools) h = Reads-bind _ (Reads-uint16 40 (omega arith)) (
    Reads-bind _ (Reads-int16 deprecated h.0) (
      Reads-bind _ (Reads-short_string name h.1)
        (Reads-map (λ bools. (delete deprecated name bools)) (Reads-uint8 bools h.2))))
Reads-read_method (delete_ok message_count) h =
    Reads-bind _ (Reads-uint16 41 (omega arith))
      (Reads-map (λ message_count. (delete_ok message_count)) (Reads-int32 message_count h))
Reads-read_method (unbind deprecated name exchange routing_key arguments) h =
    Reads-bind _ (Reads-uint16 50 (omega arith)) (
      Reads-bind _ (Reads-int16 deprecated h.0) (
        Reads-bind _ (Reads-short_string name h.1) (
          Reads-bind _ (Reads-short_string exchange h.2) (
            Reads-bind _ (Reads-short_string routing_key h.3) (
              Reads-map (λ arguments. (unbind deprecated name exchange routing_key arguments))
                (Reads-read_table arguments h.4.0 h.4.1))))))
Reads-read_method unbind_ok h = Reads-bind _ (Reads-uint16 51 (omega arith)) (Reads-pure unbind_ok)
