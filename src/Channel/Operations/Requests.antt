-- ===== src/Channel/Operations/Requests.antt =====
-- The requests of the channel operations: the method of each, the values that a frame can carry, and
-- what a peer reads.
use amqp_cpp.Base.{ℕ, ◌^◌, ◌<◌, ◌≡◌, refl, Bool, true, false, not, List, [], ◌∷◌, length, arith}
use amqp_cpp.Base.Int.{of_word, InWord}
use amqp_cpp.Field.{FieldMap, table}
use amqp_cpp.Field.BooleanSet.{from_bools-lt, get-from_bools}
use amqp_cpp.Field.Size.{EntriesTyped}
use amqp_cpp.Field.RoundTrip.{IsEncodable}
use amqp_cpp.Frame
use amqp_cpp.Frame.{
  Frame, Method, method_frame, channel_method, exchange_method, queue_method, basic_method,
  confirm_method, transaction_method, copied_buffer, synchronous,
}
use amqp_cpp.Frame.Size.{IsValidFrame, IsWrittenFrame}
use amqp_cpp.Channel.Publish.{has}
use amqp_cpp.Channel.Operations.{
  ExchangeType, type_name, durable, autodelete, passive, ifunused, ifempty, nolocal, noack,
  exclusive, nowait, requeue_flag, internal, fanout, direct, topic, headers, consistent_hash,
  message_deduplication,
}
use amqp_cpp.Channel.Operations.Perform.{
  Request, method_of, pause_request, resume_request, confirm_select_request,
  start_transaction_request, commit_transaction_request, rollback_transaction_request,
  declare_exchange_request, bind_exchange_request, unbind_exchange_request, remove_exchange_request,
  declare_queue_request, bind_queue_request, unbind_queue_request, purge_queue_request,
  remove_queue_request, set_qos_request, consume_request, cancel_request, get_request,
  recover_request,
}

abbrev ShortArgument : List ℕ → Type 0
ShortArgument s = length s < 2 ^ 8

abbrev TableArgument : FieldMap → Type 0
TableArgument m = EntriesTyped m × IsEncodable (table m)

-- Arguments that the protocol can carry: short strings, tables with their keys in order, and numbers
-- in the range of their type.
abbrev pub Fits : Request → Type 0
Fits pause_request = Unit {0}
Fits resume_request = Unit {0}
Fits confirm_select_request = Unit {0}
Fits start_transaction_request = Unit {0}
Fits commit_transaction_request = Unit {0}
Fits rollback_transaction_request = Unit {0}
Fits (declare_exchange_request name type flags arguments) =
    ShortArgument name × TableArgument arguments
Fits (bind_exchange_request source target routing_key arguments) =
    ShortArgument source
    × ShortArgument target
    × ShortArgument routing_key
    × TableArgument arguments
Fits (unbind_exchange_request source target routing_key arguments) =
    ShortArgument source
    × ShortArgument target
    × ShortArgument routing_key
    × TableArgument arguments
Fits (remove_exchange_request name flags) = ShortArgument name
Fits (declare_queue_request name flags arguments) = ShortArgument name × TableArgument arguments
Fits (bind_queue_request exchange queue routing_key arguments) =
    ShortArgument exchange
    × ShortArgument queue
    × ShortArgument routing_key
    × TableArgument arguments
Fits (unbind_queue_request exchange queue routing_key arguments) =
    ShortArgument exchange
    × ShortArgument queue
    × ShortArgument routing_key
    × TableArgument arguments
Fits (purge_queue_request name) = ShortArgument name
Fits (remove_queue_request name flags) = ShortArgument name
Fits (set_qos_request prefetch_count global) = (prefetch_count < 2 ^ 16)
Fits (consume_request queue tag flags arguments) =
    ShortArgument queue × ShortArgument tag × TableArgument arguments
Fits (cancel_request tag) = ShortArgument tag
Fits (get_request queue flags) = ShortArgument queue
Fits (recover_request flags) = Unit {0}

type_name-lt : (t : ExchangeType) → length (type_name t) < 2 ^ 8
unfolding type_name
type_name-lt fanout = omega arith
type_name-lt direct = omega arith
type_name-lt topic = omega arith
type_name-lt headers = omega arith
type_name-lt consistent_hash = omega arith
type_name-lt message_deduplication = omega arith

of_word-InWord : (n : ℕ) → n < 2 ^ 16 → InWord (2 ^ 16) (of_word (2 ^ 16) n)
of_word-InWord n h = ground arith

pub method_of-IsValid : (r : Request) → Fits r → Frame.Size.IsValid (method_of r)
unfolding method_of
method_of-IsValid pause_request h = from_bools-lt (false ∷ [])
method_of-IsValid resume_request h = from_bools-lt (true ∷ [])
method_of-IsValid confirm_select_request h = from_bools-lt (false ∷ [])
method_of-IsValid start_transaction_request h = tt
method_of-IsValid commit_transaction_request h = tt
method_of-IsValid rollback_transaction_request h = tt
method_of-IsValid (declare_exchange_request name type flags arguments) h = (
  omega arith,
  h.0,
  type_name-lt type,
  from_bools-lt (
      has flags passive
      ∷ has flags durable
      ∷ has flags autodelete
      ∷ has flags internal
      ∷ has flags nowait
      ∷ []),
  h.1,
)
method_of-IsValid (bind_exchange_request source target routing_key arguments) h =
    (omega arith, h.1, h.0, h.2, from_bools-lt (false ∷ []), h.3)
method_of-IsValid (unbind_exchange_request source target routing_key arguments) h =
    (omega arith, h.1, h.0, h.2, from_bools-lt (false ∷ []), h.3)
method_of-IsValid (remove_exchange_request name flags) h =
    (omega arith, h, from_bools-lt (has flags ifunused ∷ false ∷ []))
method_of-IsValid (declare_queue_request name flags arguments) h = (
  omega arith,
  h.0,
  from_bools-lt (
      has flags passive
      ∷ has flags durable
      ∷ has flags exclusive
      ∷ has flags autodelete
      ∷ false
      ∷ []),
  h.1,
)
method_of-IsValid (bind_queue_request exchange queue routing_key arguments) h =
    (omega arith, h.1, h.0, h.2, from_bools-lt (false ∷ []), h.3)
method_of-IsValid (unbind_queue_request exchange queue routing_key arguments) h =
    (omega arith, h.1, h.0, h.2, h.3)
method_of-IsValid (purge_queue_request name) h = (omega arith, h, from_bools-lt (false ∷ []))
method_of-IsValid (remove_queue_request name flags) h =
    (omega arith, h, from_bools-lt (has flags ifunused ∷ has flags ifempty ∷ false ∷ []))
method_of-IsValid (set_qos_request prefetch_count global) h =
    (omega arith, of_word-InWord prefetch_count h, from_bools-lt (global ∷ []))
method_of-IsValid (consume_request queue tag flags arguments) h = (
  omega arith,
  h.0,
  h.1,
  from_bools-lt (has flags nolocal ∷ has flags noack ∷ has flags exclusive ∷ false ∷ []),
  h.2,
)
method_of-IsValid (cancel_request tag) h = (h, from_bools-lt (false ∷ []))
method_of-IsValid (get_request queue flags) h =
    (omega arith, h, from_bools-lt (has flags noack ∷ []))
method_of-IsValid (recover_request flags) h = from_bools-lt (has flags requeue_flag ∷ [])

pub method_of-IsWritten : (r : Request) → Frame.Size.IsWritten (method_of r)
unfolding method_of
method_of-IsWritten pause_request = tt
method_of-IsWritten resume_request = tt
method_of-IsWritten confirm_select_request = tt
method_of-IsWritten start_transaction_request = tt
method_of-IsWritten commit_transaction_request = tt
method_of-IsWritten rollback_transaction_request = tt
method_of-IsWritten (declare_exchange_request name type flags arguments) = tt
method_of-IsWritten (bind_exchange_request source target routing_key arguments) = tt
method_of-IsWritten (unbind_exchange_request source target routing_key arguments) = tt
method_of-IsWritten (remove_exchange_request name flags) = tt
method_of-IsWritten (declare_queue_request name flags arguments) = tt
method_of-IsWritten (bind_queue_request exchange queue routing_key arguments) = tt
method_of-IsWritten (unbind_queue_request exchange queue routing_key arguments) = tt
method_of-IsWritten (purge_queue_request name) = tt
method_of-IsWritten (remove_queue_request name flags) = tt
method_of-IsWritten (set_qos_request prefetch_count global) = tt
method_of-IsWritten (consume_request queue tag flags arguments) = tt
method_of-IsWritten (cancel_request tag) = tt
method_of-IsWritten (get_request queue flags) = tt
method_of-IsWritten (recover_request flags) = tt

-- `AMQP::nowait` where the operation passes it on.
abbrev pub asks_for_answer : Request → Bool
asks_for_answer (declare_exchange_request name type flags arguments) = not (has flags nowait)
asks_for_answer (recover_request flags) = false
asks_for_answer r = true

-- A channel holds later frames back behind every request but a recover, and but the declaration of an
-- exchange with the flag not to wait.
pub synchronous-method_of :
    (id : ℕ) (r : Request) → synchronous (method_frame id (method_of r)) ≡ asks_for_answer r
unfolding method_of synchronous
synchronous-method_of id pause_request = refl
synchronous-method_of id resume_request = refl
synchronous-method_of id confirm_select_request = refl
synchronous-method_of id start_transaction_request = refl
synchronous-method_of id commit_transaction_request = refl
synchronous-method_of id rollback_transaction_request = refl
synchronous-method_of id (declare_exchange_request name type flags arguments) = rw (
    get-from_bools
      (has flags passive
        ∷ has flags durable
        ∷ has flags autodelete
        ∷ has flags internal
        ∷ has flags nowait
        ∷ [])
      4 (omega arith))
synchronous-method_of id (bind_exchange_request source target routing_key arguments) =
    rw (get-from_bools (false ∷ []) 0 (omega arith))
synchronous-method_of id (unbind_exchange_request source target routing_key arguments) =
    rw (get-from_bools (false ∷ []) 0 (omega arith))
synchronous-method_of id (remove_exchange_request name flags) =
    rw (get-from_bools (has flags ifunused ∷ false ∷ []) 1 (omega arith))
synchronous-method_of id (declare_queue_request name flags arguments) = rw (
    get-from_bools
      (has flags passive
        ∷ has flags durable
        ∷ has flags exclusive
        ∷ has flags autodelete
        ∷ false
        ∷ [])
      4 (omega arith))
synchronous-method_of id (bind_queue_request exchange queue routing_key arguments) =
    rw (get-from_bools (false ∷ []) 0 (omega arith))
synchronous-method_of id (unbind_queue_request exchange queue routing_key arguments) = refl
synchronous-method_of id (purge_queue_request name) =
    rw (get-from_bools (false ∷ []) 0 (omega arith))
synchronous-method_of id (remove_queue_request name flags) =
    rw (get-from_bools (has flags ifunused ∷ has flags ifempty ∷ false ∷ []) 2 (omega arith))
synchronous-method_of id (set_qos_request prefetch_count global) = refl
synchronous-method_of id (consume_request queue tag flags arguments) = rw (
    get-from_bools (has flags nolocal ∷ has flags noack ∷ has flags exclusive ∷ false ∷ []) 3
      (omega arith))
synchronous-method_of id (cancel_request tag) = rw (get-from_bools (false ∷ []) 0 (omega arith))
synchronous-method_of id (get_request queue flags) = refl
synchronous-method_of id (recover_request flags) = refl
