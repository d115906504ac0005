-- ===== src/Frame/Transaction/RoundTrip.antt =====
-- The transaction methods, src/transaction*frame.h: their sizes, and writing and reading.
use amqp_cpp.Base.{◌^◌, ◌<◌, ◌≡◌, refl, ◌++◌, length, arith}
use amqp_cpp.Wire.{add_uint16}
use amqp_cpp.Wire.Reads.{Reads, Reads-pure, Reads-bind}
use amqp_cpp.Wire.Primitives.{Reads-uint16}
use amqp_cpp.Field.{short_string_size, long_string_size}
use amqp_cpp.Frame.Transaction.{
  TransactionMethod, method_id, arguments_size, fill_arguments, read_method, IsValid, IsWritten,
  select, select_ok, commit, commit_ok, rollback, rollback_ok,
}

-- The size is the number of bytes that `fill` writes, below 2 ^ 32.
pub length-fill_arguments :
    (m : TransactionMethod)
    → IsValid m
    → IsWritten m
    → length (fill_arguments m) < 2 ^ 32
    → length (fill_arguments m) ≡ arguments_size m
unfolding fill_arguments arguments_size short_string_size long_string_size
length-fill_arguments select h w b = refl
length-fill_arguments select_ok h w b = refl
length-fill_arguments commit h w b = refl
length-fill_arguments commit_ok h w b = refl
length-fill_arguments rollback h w b = refl
length-fill_arguments rollback_ok h w b = refl

-- A transaction method whose values its class can hold is read from its id and its arguments.
pub Reads-read_method :
    (m : TransactionMethod)
    → IsValid m
    → Reads read_method (add_uint16 (method_id m) ++ fill_arguments m) m
unfolding read_method method_id fill_arguments
Reads-read_method select h = Reads-bind _ (Reads-uint16 10 (omega arith)) (Reads-pure select)
Reads-read_method select_ok h = Reads-bind _ (Reads-uint16 11 (omega arith)) (Reads-pure select_ok)
Reads-read_method commit h = Reads-bind _ (Reads-uint16 20 (omega arith)) (Reads-pure commit)
Reads-read_method commit_ok h = Reads-bind _ (Reads-uint16 21 (omega arith)) (Reads-pure commit_ok)
Reads-read_method rollback h = Reads-bind _ (Reads-uint16 30 (omega arith)) (Reads-pure rollback)
Reads-read_method rollback_ok h =
    Reads-bind _ (Reads-uint16 31 (omega arith)) (Reads-pure rollback_ok)
