-- ===== src/Frame/Basic/RoundTrip.antt =====
-- The basic methods, src/basic*frame.h: their sizes, and writing and reading.
use amqp_cpp.Base.{◌^◌, ◌<◌, ◌≡◌, refl, ap, ◌++◌, length, length-append, arith}
use amqp_cpp.Wire.{add_uint8, add_uint16, add_uint32, add_uint64, add_int16, add_int32, add_int64}
use amqp_cpp.Wire.Reads.{Reads, Reads-pure, Reads-bind, Reads-map}
use amqp_cpp.Wire.Primitives.{
  Reads-uint8, Reads-uint16, Reads-uint32, Reads-uint64, Reads-int16, Reads-int32, Reads-int64,
  length-add_uint8, length-add_uint16, length-add_uint32, length-add_uint64, length-add_int16,
  length-add_int32, length-add_int64,
}
use amqp_cpp.Field.{fill_table, fill_short_string, short_string_size, long_string_size}
use amqp_cpp.Field.Size.{length-fill_table, length-fill_short_string}
use amqp_cpp.Field.RoundTrip.{Reads-short_string, Reads-read_table}
use amqp_cpp.Frame.Basic.{
  BasicMethod, method_id, arguments_size, fill_arguments, read_method, IsValid, IsWritten, qos,
  qos_ok, consume, consume_ok, cancel, cancel_ok, publish, return, deliver, get_message, get_ok,
  get_empty, ack, reject, recover_async, recover, recover_ok, nack,
}

-- The size is the number of bytes that `fill` writes, below 2 ^ 32.
pub length-fill_arguments :
    (m : BasicMethod)
    → IsValid m
    → IsWritten m
    → length (fill_arguments m) < 2 ^ 32
    → length (fill_arguments m) ≡ arguments_size m
unfolding fill_arguments arguments_size short_string_size long_string_size
length-fill_arguments (qos prefetch_size prefetch_count global) h w b = omega (
  arith,
  length-add_int32 prefetch_size,
  length-append (add_int32 prefetch_size) (add_int16 prefetch_count ++ add_uint8 global),
  length-add_int16 prefetch_count,
  length-append (add_int16 prefetch_count) (add_uint8 global),
  length-add_uint8 global,
)
length-fill_arguments qos_ok h w b = refl
length-fill_arguments (consume deprecated queue_name consumer_tag bools filter) h w b = omega (
  arith,
  length-add_uint16 deprecated,
  length-append (add_uint16 deprecated) (
      fill_short_string queue_name
      ++ (fill_short_string consumer_tag ++ (add_uint8 bools ++ fill_table filter))),
  length-fill_short_string queue_name,
  length-append (fill_short_string queue_name)
      (fill_short_string consumer_tag ++ (add_uint8 bools ++ fill_table filter)),
  length-fill_short_string consumer_tag,
  length-append (fill_short_string consumer_tag) (add_uint8 bools ++ fill_table filter),
  length-add_uint8 bools,
  length-append (add_uint8 bools) (fill_table filter),
  length-fill_table filter h.4.0,
)
length-fill_arguments (consume_ok consumer_tag) h w b =
    omega (arith, length-fill_short_string consumer_tag)
length-fill_arguments (cancel consumer_tag no_wait) h w b = omega (
  arith,
  length-fill_short_string consumer_tag,
  length-append (fill_short_string consumer_tag) (add_uint8 no_wait),
  length-add_uint8 no_wait,
)
length-fill_arguments (cancel_ok consumer_tag) h w b =
    omega (arith, length-fill_short_string consumer_tag)
length-fill_arguments (publish deprecated exchange routing_key bools) h w b = omega (
  arith,
  length-add_int16 deprecated,
  length-append (add_int16 deprecated)
      (fill_short_string exchange ++ (fill_short_string routing_key ++ add_uint8 bools)),
  length-fill_short_string exchange,
  length-append (fill_short_string exchange) (fill_short_string routing_key ++ add_uint8 bools),
  length-fill_short_string routing_key,
  length-append (fill_short_string routing_key) (add_uint8 bools),
  length-add_uint8 bools,
)
length-fill_arguments (return reply_code reply_text exchange routing_key) h w b = omega (
  arith,
  length-add_int16 reply_code,
  length-append (add_int16 reply_code) (
      fill_short_string reply_text
      ++ (fill_short_string exchange ++ fill_short_string routing_key)),
  length-fill_short_string reply_text,
  length-append (fill_short_string reply_text)
      (fill_short_string exchange ++ fill_short_string routing_key),
  length-fill_short_string exchange,
  length-append (fill_short_string exchange) (fill_short_string routing_key),
  length-fill_short_string routing_key,
)
length-fill_arguments (deliver consumer_tag delivery_tag redelivered exchange routing_key) h w b =
    omega (
      arith,
      length-fill_short_string consumer_tag,
      length-append (fill_short_string consumer_tag) (
          add_uint64 delivery_tag
          ++ (add_uint8 redelivered
              ++ (fill_short_string exchange ++ fill_short_string routing_key))),
      length-add_uint64 delivery_tag,
      length-append (add_uint64 delivery_tag)
          (add_uint8 redelivered ++ (fill_short_string exchange ++ fill_short_string routing_key)),
      length-add_uint8 redelivered,
      length-append (add_uint8 redelivered)
          (fill_short_string exchange ++ fill_short_string routing_key),
      length-fill_short_string exchange,
      length-append (fill_short_string exchange) (fill_short_string routing_key),
      length-fill_short_string routing_key,
    )
length-fill_arguments (get_message deprecated queue no_ack) h w b = omega (
  arith,
  length-add_uint16 deprecated,
  length-append (add_uint16 deprecated) (fill_short_string queue ++ add_uint8 no_ack),
  length-fill_short_string queue,
  length-append (fill_short_string queue) (add_uint8 no_ack),
  length-add_uint8 no_ack,
)
length-fill_arguments (get_ok delivery_tag redelivered exchange routing_key message_count) h w b =
    omega (
      arith,
      length-add_uint64 delivery_tag,
      length-append (add_uint64 delivery_tag) (
          add_uint8 redelivered
          ++ (fill_short_string exchange
              ++ (fill_short_string routing_key ++ add_uint32 message_count))),
      length-add_uint8 redelivered,
      length-append (add_uint8 redelivered) (
          fill_short_string exchange
          ++ (fill_short_string routing_key ++ add_uint32 message_count)),
      length-fill_short_string exchange,
      length-append (fill_short_string exchange)
          (fill_short_string routing_key ++ add_uint32 message_count),
      length-fill_short_string routing_key,
      length-append (fill_short_string routing_key) (add_uint32 message_count),
      length-add_uint32 message_count,
    )
length-fill_arguments (get_empty deprecated) h w b =
    omega (arith, length-fill_short_string deprecated, ap length w)
length-fill_arguments (ack delivery_tag multiple) h w b = omega (
  arith,
  length-add_uint64 delivery_tag,
  length-append (add_uint64 delivery_tag) (add_uint8 multiple),
  length-add_uint8 multiple,
)
length-fill_arguments (reject delivery_tag requeue) h w b = omega (
  arith,
  length-add_int64 delivery_tag,
  length-append (add_int64 delivery_tag) (add_uint8 requeue),
  length-add_uint8 requeue,
)
length-fill_arguments (recover_async requeue) h w b = omega (arith, length-add_uint8 requeue)
length-fill_arguments (recover requeue) h w b = omega (arith, length-add_uint8 requeue)
length-fill_arguments recover_ok h w b = refl
length-fill_arguments (nack delivery_tag bits) h w b = omega (
  arith,
  length-add_uint64 delivery_tag,
  length-append (add_uint64 delivery_tag) (add_uint8 bits),
  length-add_uint8 bits,
)

-- A basic method whose values its class can hold is read from its id and its arguments.
pub Reads-read_method :
    (m : BasicMethod)
    → IsValid m
    → Reads read_method (add_uint16 (method_id m) ++ fill_arguments m) m
unfolding read_method method_id fill_arguments
Reads-read_method (qos prefetch_size prefetch_count global) h =
    Reads-bind _ (Reads-uint16 10 (omega arith)) (
      Reads-bind _ (Reads-int32 prefetch_size h.0) (
        Reads-bind _ (Reads-int16 prefetch_count h.1) (
          Reads-map (λ global. (qos prefetch_size prefetch_count global))
            (Reads-uint8 global h.2))))
Reads-read_method qos_ok h = Reads-bind _ (Reads-uint16 11 (omega arith)) (Reads-pure qos_ok)
Reads-read_method (consume deprecated queue_name consumer_tag bools filter) h =
    Reads-bind _ (Reads-uint16 20 (omega arith)) (
      Reads-bind _ (Reads-uint16 deprecated h.0) (
        Reads-bind _ (Reads-short_string queue_name h.1) (
          Reads-bind _ (Reads-short_string consumer_tag h.2) (
            Reads-bind _ (Reads-uint8 bools h.3) (
              Reads-map (λ filter. (consume deprecated queue_name consumer_tag bools filter))
                (Reads-read_table filter h.4.0 h.4.1))))))
Reads-read_method (consume_ok consumer_tag) h =
    Reads-bind _ (Reads-uint16 21 (omega arith))
      (Reads-map (λ consumer_tag. (consume_ok consumer_tag)) (Reads-short_string consumer_tag h))
Reads-read_method (cancel consumer_tag no_wait) h = Reads-bind _ (Reads-uint16 30 (omega arith)) (
    Reads-bind _ (Reads-short_string consumer_tag h.0)
      (Reads-map (λ no_wait. (cancel consumer_tag no_wait)) (Reads-uint8 no_wait h.1)))
Reads-read_method (cancel_ok consumer_tag) h =
    Reads-bind _ (Reads-uint16 31 (omega arith))
      (Reads-map (λ consumer_tag. (cancel_ok consumer_tag)) (Reads-short_string consumer_tag h))
Reads-read_method (publish deprecated exchange routing_key bools) h =
    Reads-bind _ (Reads-uint16 40 (omega arith)) (
      Reads-bind _ (Reads-int16 deprecated h.0) (
        Reads-bind _ (Reads-short_string exchange h.1) (
          Reads-bind _ (Reads-short_string routing_key h.2) (
            Reads-map (λ bools. (publish deprecated exchange routing_key bools))
              (Reads-uint8 bools h.3)))))
Reads-read_method (return reply_code reply_text exchange routing_key) h =
    Reads-bind _ (Reads-uint16 50 (omega arith)) (
      Reads-bind _ (Reads-int16 reply_code h.0) (
        Reads-bind _ (Reads-short_string reply_text h.1) (
          Reads-bind _ (Reads-short_string exchange h.2) (
            Reads-map (λ routing_key. (return reply_code reply_text exchange routing_key))
              (Reads-short_string routing_key h.3)))))
Reads-read_method (deliver consumer_tag delivery_tag redelivered exchange routing_key) h =
    Reads-bind _ (Reads-uint16 60 (omega arith)) (
      Reads-bind _ (Reads-short_string consumer_tag h.0) (
        Reads-bind _ (Reads-uint64 delivery_tag h.1) (
          Reads-bind _ (Reads-uint8 redelivered h.2) (
            Reads-bind _ (Reads-short_string exchange h.3) (
              Reads-map
                (λ routing_key.
                  (deliver consumer_tag delivery_tag redelivered exchange routing_key))
                (Reads-short_string routing_key h.4))))))
Reads-read_method (get_message deprecated queue no_ack) h =
    Reads-bind _ (Reads-uint16 70 (omega arith)) (
      Reads-bind _ (Reads-uint16 deprecated h.0) (
        Reads-bind _ (Reads-short_string queue h.1)
          (Reads-map (λ no_ack. (get_message deprecated queue no_ack)) (Reads-uint8 no_ack h.2))))
Reads-read_method (get_ok delivery_tag redelivered exchange routing_key message_count) h =
    Reads-bind _ (Reads-uint16 71 (omega arith)) (
      Reads-bind _ (Reads-uint64 delivery_tag h.0) (
        Reads-bind _ (Reads-uint8 redelivered h.1) (
          Reads-bind _ (Reads-short_string exchange h.2) (
            Reads-bind _ (Reads-short_string routing_key h.3) (
              Reads-map
                (λ message_count.
                  (get_ok delivery_tag redelivered exchange routing_key message_count))
                (Reads-uint32 message_count h.4))))))
Reads-read_method (get_empty deprecated) h =
    Reads-bind _ (Reads-uint16 72 (omega arith))
      (Reads-map (λ deprecated. (get_empty deprecated)) (Reads-short_string deprecated h))
Reads-read_method (ack delivery_tag multiple) h = Reads-bind _ (Reads-uint16 80 (omega arith)) (
    Reads-bind _ (Reads-uint64 delivery_tag h.0)
      (Reads-map (λ multiple. (ack delivery_tag multiple)) (Reads-uint8 multiple h.1)))
Reads-read_method (reject delivery_tag requeue) h = Reads-bind _ (Reads-uint16 90 (omega arith)) (
    Reads-bind _ (Reads-int64 delivery_tag h.0)
      (Reads-map (λ requeue. (reject delivery_tag requeue)) (Reads-uint8 requeue h.1)))
Reads-read_method (recover_async requeue) h =
    Reads-bind _ (Reads-uint16 100 (omega arith))
      (Reads-map (λ requeue. (recover_async requeue)) (Reads-uint8 requeue h))
Reads-read_method (recover requeue) h =
    Reads-bind _ (Reads-uint16 110 (omega arith))
      (Reads-map (λ requeue. (recover requeue)) (Reads-uint8 requeue h))
Reads-read_method recover_ok h =
    Reads-bind _ (Reads-uint16 111 (omega arith)) (Reads-pure recover_ok)
Reads-read_method (nack delivery_tag bits) h = Reads-bind _ (Reads-uint16 120 (omega arith)) (
    Reads-bind _ (Reads-uint64 delivery_tag h.0)
      (Reads-map (λ bits. (nack delivery_tag bits)) (Reads-uint8 bits h.1)))
