-- ===== src/Frame/Connection/RoundTrip.antt =====
-- The connection methods, src/connection*frame.h: their sizes, and writing and reading.
use amqp_cpp.Base.{◌^◌, ◌<◌, ◌≡◌, refl, ap, ◌++◌, length, length-append, arith}
use amqp_cpp.Wire.{add_uint8, add_uint16, add_uint32}
use amqp_cpp.Wire.Reads.{Reads, Reads-pure, Reads-bind, Reads-map}
use amqp_cpp.Wire.Primitives.{
  Reads-uint8, Reads-uint16, Reads-uint32, length-add_uint8, length-add_uint16, length-add_uint32,
}
use amqp_cpp.Field.{
  fill_table, fill_short_string, fill_long_string, short_string_size, long_string_size,
}
use amqp_cpp.Field.Size.{length-fill_table, length-fill_short_string, length-fill_long_string}
use amqp_cpp.Field.RoundTrip.{Reads-short_string, Reads-long_string, Reads-read_table}
use amqp_cpp.Frame.Connection.{
  ConnectionMethod, method_id, arguments_size, fill_arguments, read_method, IsValid, IsWritten,
  start, start_ok, secure, secure_ok, tune, tune_ok, connection_open, open_ok, close, close_ok,
  block, unblock,
}

-- The size is the number of bytes that `fill` writes, below 2 ^ 32.
pub length-fill_arguments :
    (m : ConnectionMethod)
    → IsValid m
    → IsWritten m
    → length (fill_arguments m) < 2 ^ 32
    → length (fill_arguments m) ≡ arguments_size m
unfolding fill_arguments arguments_size short_string_size long_string_size
length-fill_arguments (start major minor properties mechanisms locales) h w b = omega (
  arith,
  length-add_uint8 major,
  length-append (add_uint8 major) (
      add_uint8 minor
      ++ (fill_table properties ++ (fill_long_string mechanisms ++ fill_long_string locales))),
  length-add_uint8 minor,
  length-append (add_uint8 minor)
      (fill_table properties ++ (fill_long_string mechanisms ++ fill_long_string locales)),
  length-fill_table properties h.2.0,
  length-append (fill_table properties) (fill_long_string mechanisms ++ fill_long_string locales),
  length-fill_long_string mechanisms,
  length-append (fill_long_string mechanisms) (fill_long_string locales),
  length-fill_long_string locales,
)
length-fill_arguments (start_ok properties mechanism response locale) h w b = omega (
  arith,
  length-fill_table properties h.0.0,
  length-append (fill_table properties)
      (fill_short_string mechanism ++ (fill_long_string response ++ fill_short_string locale)),
  length-fill_short_string mechanism,
  length-append (fill_short_string mechanism)
      (fill_long_string response ++ fill_short_string locale),
  length-fill_long_string response,
  length-append (fill_long_string response) (fill_short_string locale),
  length-fill_short_string locale,
)
length-fill_arguments (secure challenge) h w b = omega (arith, length-fill_long_string challenge)
length-fill_arguments (secure_ok response) h w b = omega (arith, length-fill_long_string response)
length-fill_arguments (tune channels frame_max heartbeat) h w b = omega (
  arith,
  length-add_uint16 channels,
  length-append (add_uint16 channels) (add_uint32 frame_max ++ add_uint16 heartbeat),
  length-add_uint32 frame_max,
  length-append (add_uint32 frame_max) (add_uint16 heartbeat),
  length-add_uint16 heartbeat,
)
length-fill_arguments (tune_ok channels frame_max heartbeat) h w b = omega (
  arith,
  length-add_uint16 channels,
  length-append (add_uint16 channels) (add_uint32 frame_max ++ add_uint16 heartbeat),
  length-add_uint32 frame_max,
  length-append (add_uint32 frame_max) (add_uint16 heartbeat),
  length-add_uint16 heartbeat,
)
length-fill_arguments (connection_open vhost deprecated_capabilities deprecated_insist) h w b =
    omega (
      arith,
      length-fill_short_string vhost,
      length-append (fill_short_string vhost)
          (fill_short_string deprecated_capabilities ++ add_uint8 deprecated_insist),
      length-fill_short_string deprecated_capabilities,
      length-append (fill_short_string deprecated_capabilities) (add_uint8 deprecated_insist),
      length-add_uint8 deprecated_insist,
      ap length w,
    )
length-fill_arguments (open_ok deprecated_known_hosts) h w b =
    omega (arith, length-fill_short_string deprecated_known_hosts, ap length w)
length-fill_arguments (close code text failing_class failing_method) h w b = omega (
  arith,
  length-add_uint16 code,
  length-append (add_uint16 code)
      (fill_short_string text ++ (add_uint16 failing_class ++ add_uint16 failing_method)),
  length-fill_short_string text,
  length-append (fill_short_string text) (add_uint16 failing_class ++ add_uint16 failing_method),
  length-add_uint16 failing_class,
  length-append (add_uint16 failing_class) (add_uint16 failing_method),
  length-add_uint16 failing_method,
)
length-fill_arguments close_ok h w b = refl
length-fill_arguments (block reason) h w b = omega (arith, length-fill_short_string reason)
length-fill_arguments unblock h w b = refl

-- A connection method whose values its class can hold is read from its id and its arguments.
pub Reads-read_method :
    (m : ConnectionMethod)
    → IsValid m
    → Reads read_method (add_uint16 (method_id m) ++ fill_arguments m) m
unfolding read_method method_id fill_arguments
Reads-read_method (start major minor properties mechanisms locales) h =
    Reads-bind _ (Reads-uint16 10 (omega arith)) (
      Reads-bind _ (Reads-uint8 major h.0) (
        Reads-bind _ (Reads-uint8 minor h.1) (
          Reads-bind _ (Reads-read_table properties h.2.0 h.2.1) (
            Reads-bind _ (Reads-long_string mechanisms h.3) (
              Reads-map (λ locales. (start major minor properties mechanisms locales))
                (Reads-long_string locales h.4))))))
Reads-read_method (start_ok properties mechanism response locale) h =
    Reads-bind _ (Reads-uint16 11 (omega arith)) (
      Reads-bind _ (Reads-read_table properties h.0.0 h.0.1) (
        Reads-bind _ (Reads-short_string mechanism h.1) (
          Reads-bind _ (Reads-long_string response h.2) (
            Reads-map (λ locale. (start_ok properties mechanism response locale))
              (Reads-short_string locale h.3)))))
Reads-read_method (secure challenge) h =
    Reads-bind _ (Reads-uint16 20 (omega arith))
      (Reads-map (λ challenge. (secure challenge)) (Reads-long_string challenge h))
Reads-read_method (secure_ok response) h =
    Reads-bind _ (Reads-uint16 21 (omega arith))
      (Reads-map (λ response. (secure_ok response)) (Reads-long_string response h))
Reads-read_method (tune channels frame_max heartbeat) h =
    Reads-bind _ (Reads-uint16 30 (omega arith)) (
      Reads-bind _ (Reads-uint16 channels h.0) (
        Reads-bind _ (Reads-uint32 frame_max h.1) (
          Reads-map (λ heartbeat. (tune channels frame_max heartbeat))
            (Reads-uint16 heartbeat h.2))))
Reads-read_method (tune_ok channels frame_max heartbeat) h =
    Reads-bind _ (Reads-uint16 31 (omega arith)) (
      Reads-bind _ (Reads-uint16 channels h.0) (
        Reads-bind _ (Reads-uint32 frame_max h.1) (
          Reads-map (λ heartbeat. (tune_ok channels frame_max heartbeat))
            (Reads-uint16 heartbeat h.2))))
Reads-read_method (connection_open vhost deprecated_capabilities deprecated_insist) h =
    Reads-bind _ (Reads-uint16 40 (omega arith)) (
      Reads-bind _ (Reads-short_string vhost h.0) (
        Reads-bind _ (Reads-short_string deprecated_capabilities h.1) (
          Reads-map
            (λ deprecated_insist. (connection_open vhost deprecated_capabilities deprecated_insist))
            (Reads-uint8 deprecated_insist h.2))))
Reads-read_method (open_ok deprecated_known_hosts) h =
    Reads-bind _ (Reads-uint16 41 (omega arith)) (
      Reads-map (λ deprecated_known_hosts. (open_ok deprecated_known_hosts))
        (Reads-short_string deprecated_known_hosts h))
Reads-read_method (close code text failing_class failing_method) h =
    Reads-bind _ (Reads-uint16 50 (omega arith)) (
      Reads-bind _ (Reads-uint16 code h.0) (
        Reads-bind _ (Reads-short_string text h.1) (
          Reads-bind _ (Reads-uint16 failing_class h.2) (
            Reads-map (λ failing_method. (close code text failing_class failing_method))
              (Reads-uint16 failing_method h.3)))))
Reads-read_method close_ok h = Reads-bind _ (Reads-uint16 51 (omega arith)) (Reads-pure close_ok)
Reads-read_method (block reason) h =
    Reads-bind _ (Reads-uint16 60 (omega arith))
      (Reads-map (λ reason. (block reason)) (Reads-short_string reason h))
Reads-read_method unblock h = Reads-bind _ (Reads-uint16 61 (omega arith)) (Reads-pure unblock)
