-- ===== src/Frame/Channel/RoundTrip.antt =====
-- The channel methods, src/channel*frame.h: their sizes, and writing and reading.
use amqp_cpp.Base.{◌^◌, ◌<◌, ◌≡◌, refl, [], ◌++◌, length, length-append, arith}
use amqp_cpp.Wire.{add_uint16, add_int16}
use amqp_cpp.Wire.Reads.{Reads, Reads-pure, Reads-bind, Reads-map}
use amqp_cpp.Wire.Primitives.{
  Reads-uint8, Reads-uint16, Reads-int16, length-add_uint8, length-add_int16,
}
use amqp_cpp.Field.{fill_short_string, short_string_size, long_string_size}
use amqp_cpp.Field.Size.{length-fill_short_string, length-fill_long_string}
use amqp_cpp.Field.RoundTrip.{Reads-short_string, Reads-long_string}
use amqp_cpp.Frame.Channel.{
  ChannelMethod, method_id, arguments_size, fill_arguments, read_method, IsValid, IsWritten,
  channel_open, open_ok, flow, flow_ok, close, close_ok,
}

-- The size is the number of bytes that `fill` writes, below 2 ^ 32.
pub length-fill_arguments :
    (m : ChannelMethod)
    → IsValid m
    → IsWritten m
    → length (fill_arguments m) < 2 ^ 32
    → length (fill_arguments m) ≡ arguments_size m
unfolding fill_arguments arguments_size short_string_size long_string_size
length-fill_arguments channel_open h w b = length-fill_short_string []
length-fill_arguments open_ok h w b = length-fill_long_string []
length-fill_arguments (flow active) h w b = omega (arith, length-add_uint8 active)
length-fill_arguments (flow_ok active) h w b = omega (arith, length-add_uint8 active)
length-fill_arguments (close code text failing_class failing_method) h w b = omega (
  arith,
  length-add_int16 code,
  length-append (add_int16 code)
      (fill_short_string text ++ (add_int16 failing_class ++ add_int16 failing_method)),
  length-fill_short_string text,
  length-append (fill_short_string text) (add_int16 failing_class ++ add_int16 failing_method),
  length-add_int16 failing_class,
  length-append (add_int16 failing_class) (add_int16 failing_method),
  length-add_int16 failing_method,
)
length-fill_arguments close_ok h w b = refl

-- A channel method whose values its class can hold is read from its id and its arguments.
pub Reads-read_method :
    (m : ChannelMethod)
    → IsValid m
    → Reads read_method (add_uint16 (method_id m) ++ fill_arguments m) m
unfolding read_method method_id fill_arguments
Reads-read_method channel_open h =
    Reads-bind _ (Reads-uint16 10 (omega arith))
      (Reads-map (λ unused. channel_open) (Reads-short_string [] (omega arith)))
Reads-read_method open_ok h =
    Reads-bind _ (Reads-uint16 11 (omega arith))
      (Reads-map (λ unused. open_ok) (Reads-long_string [] (omega arith)))
Reads-read_method (flow active) h =
    Reads-bind _ (Reads-uint16 20 (omega arith))
      (Reads-map (λ active. (flow active)) (Reads-uint8 active h))
Reads-read_method (flow_ok active) h =
    Reads-bind _ (Reads-uint16 21 (omega arith))
      (Reads-map (λ active. (flow_ok active)) (Reads-uint8 active h))
Reads-read_method (close code text failing_class failing_method) h =
    Reads-bind _ (Reads-uint16 40 (omega arith)) (
      Reads-bind _ (Reads-int16 code h.0) (
        Reads-bind _ (Reads-short_string text h.1) (
          Reads-bind _ (Reads-int16 failing_class h.2) (
            Reads-map (λ failing_method. (close code text failing_class failing_method))
              (Reads-int16 failing_method h.3)))))
Reads-read_method close_ok h = Reads-bind _ (Reads-uint16 41 (omega arith)) (Reads-pure close_ok)
