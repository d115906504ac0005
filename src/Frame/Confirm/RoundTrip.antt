-- ===== src/Frame/Confirm/RoundTrip.antt =====
-- The confirm methods, src/confirm*frame.h: their sizes, and writing and reading.
use amqp_cpp.Base.{◌^◌, ◌<◌, ◌≡◌, refl, ◌++◌, length, arith}
use amqp_cpp.Wire.{add_uint16}
use amqp_cpp.Wire.Reads.{Reads, Reads-pure, Reads-bind, Reads-map}
use amqp_cpp.Wire.Primitives.{Reads-uint8, Reads-uint16, length-add_uint8}
use amqp_cpp.Field.{short_string_size, long_string_size}
use amqp_cpp.Frame.Confirm.{
  ConfirmMethod, method_id, arguments_size, fill_arguments, read_method, IsValid, IsWritten, select,
  select_ok,
}

-- The size is the number of bytes that `fill` writes, below 2 ^ 32.
pub length-fill_arguments :
    (m : ConfirmMethod)
    → IsValid m
    → IsWritten m
    → length (fill_arguments m) < 2 ^ 32
    → length (fill_arguments m) ≡ arguments_size m
unfolding fill_arguments arguments_size short_string_size long_string_size
length-fill_arguments (select no_wait) h w b = omega (arith, length-add_uint8 no_wait)
length-fill_arguments select_ok h w b = refl

-- A confirm method whose values its class can hold is read from its id and its arguments.
pub Reads-read_method :
    (m : ConfirmMethod)
    → IsValid m
    → Reads read_method (add_uint16 (method_id m) ++ fill_arguments m) m
unfolding read_method method_id fill_arguments
Reads-read_method (select no_wait) h =
    Reads-bind _ (Reads-uint16 10 (omega arith))
      (Reads-map (λ no_wait. (select no_wait)) (Reads-uint8 no_wait h))
Reads-read_method select_ok h = Reads-bind _ (Reads-uint16 11 (omega arith)) (Reads-pure select_ok)
