-- ===== src/Channel/Operations/Perform.antt =====
-- One operation of src/channelimpl.cpp as a request, and the method of its frame.
use amqp_cpp.Base.{ℕ, ◌^◌, ◌≡◌, refl, Bool, true, false, List, [], ◌∷◌}
use amqp_cpp.Base.Int.{pos, of_word}
use amqp_cpp.Field.{FieldMap}
use amqp_cpp.Field.BooleanSet.{from_bools}
use amqp_cpp.Frame
use amqp_cpp.Frame.{
  Frame, Method, method_frame, channel_method, exchange_method, queue_method, basic_method,
  confirm_method, transaction_method, copied_buffer, synchronous,
}
use amqp_cpp.Connection.{ConnectionImpl}
use amqp_cpp.Channel.{ChannelImpl, Result, push}
use amqp_cpp.Channel.Publish.{has}
use amqp_cpp.Channel.Operations.{
  ExchangeType, type_name, durable, autodelete, passive, ifunused, ifempty, nolocal, noack,
  exclusive, nowait, requeue_flag, internal, pause, resume, confirm_select, start_transaction,
  commit_transaction, rollback_transaction, declare_exchange, bind_exchange, unbind_exchange,
  remove_exchange, declare_queue, bind_queue, unbind_queue, purge_queue, remove_queue, set_qos,
  consume, cancel, get, recover,
}

-- An operation with its arguments.
pub data Request : Type 0 where
  pause_request : Request
  resume_request : Request
  confirm_select_request : Request
  start_transaction_request : Request
  commit_transaction_request : Request
  rollback_transaction_request : Request
  declare_exchange_request : List ℕ → ExchangeType → ℕ → FieldMap → Request
  bind_exchange_request : List ℕ → List ℕ → List ℕ → FieldMap → Request
  unbind_exchange_request : List ℕ → List ℕ → List ℕ → FieldMap → Request
  remove_exchange_request : List ℕ → ℕ → Request
  declare_queue_request : List ℕ → ℕ → FieldMap → Request
  bind_queue_request : List ℕ → List ℕ → List ℕ → FieldMap → Request
  unbind_queue_request : List ℕ → List ℕ → List ℕ → FieldMap → Request
  purge_queue_request : List ℕ → Request
  remove_queue_request : List ℕ → ℕ → Request
  set_qos_request : ℕ → Bool → Request
  consume_request : List ℕ → List ℕ → ℕ → FieldMap → Request
  cancel_request : List ℕ → Request
  get_request : List ℕ → ℕ → Request
  recover_request : ℕ → Request

-- What the program calls.
unfoldable pub perform : ℕ → ChannelImpl → ConnectionImpl → Request → Result
unfolding pause resume confirm_select start_transaction commit_transaction rollback_transaction
    declare_exchange bind_exchange unbind_exchange remove_exchange declare_queue bind_queue
    unbind_queue purge_queue remove_queue set_qos consume cancel get recover
perform d c k pause_request = pause d c k
perform d c k resume_request = resume d c k
perform d c k confirm_select_request = confirm_select d c k
perform d c k start_transaction_request = start_transaction d c k
perform d c k commit_transaction_request = commit_transaction d c k
perform d c k rollback_transaction_request = rollback_transaction d c k
perform d c k (declare_exchange_request name type flags arguments) =
    declare_exchange d c k name type flags arguments
perform d c k (bind_exchange_request source target routing_key arguments) =
    bind_exchange d c k source target routing_key arguments
perform d c k (unbind_exchange_request source target routing_key arguments) =
    unbind_exchange d c k source target routing_key arguments
perform d c k (remove_exchange_request name flags) = remove_exchange d c k name flags
perform d c k (declare_queue_request name flags arguments) =
    declare_queue d c k name flags arguments
perform d c k (bind_queue_request exchange queue routing_key arguments) =
    bind_queue d c k exchange queue routing_key arguments
perform d c k (unbind_queue_request exchange queue routing_key arguments) =
    unbind_queue d c k exchange queue routing_key arguments
perform d c k (purge_queue_request name) = purge_queue d c k name
perform d c k (remove_queue_request name flags) = remove_queue d c k name flags
perform d c k (set_qos_request prefetch_count global) = set_qos d c k prefetch_count global
perform d c k (consume_request queue tag flags arguments) = consume d c k queue tag flags arguments
perform d c k (cancel_request tag) = cancel d c k tag
perform d c k (get_request queue flags) = get d c k queue flags
perform d c k (recover_request flags) = recover d c k flags

-- The method of each request, by the arguments of the operation.
unfoldable pub method_of : Request → Method
method_of pause_request = channel_method (Frame.Channel.flow (from_bools (false ∷ [])))
method_of resume_request = channel_method (Frame.Channel.flow (from_bools (true ∷ [])))
method_of confirm_select_request = confirm_method (Frame.Confirm.select (from_bools (false ∷ [])))
method_of start_transaction_request = transaction_method Frame.Transaction.select
method_of commit_transaction_request = transaction_method Frame.Transaction.commit
method_of rollback_transaction_request = transaction_method Frame.Transaction.rollback
method_of (declare_exchange_request name type flags arguments) =
    let bools = from_bools (
      has flags passive
      ∷ has flags durable
      ∷ has flags autodelete
      ∷ has flags internal
      ∷ has flags nowait
      ∷ []) in
    exchange_method (Frame.Exchange.declare 0 name (type_name type) bools arguments)
method_of (bind_exchange_request source target routing_key arguments) =
    exchange_method
      (Frame.Exchange.bind 0 target source routing_key (from_bools (false ∷ [])) arguments)
method_of (unbind_exchange_request source target routing_key arguments) =
    exchange_method
      (Frame.Exchange.unbind 0 target source routing_key (from_bools (false ∷ [])) arguments)
method_of (remove_exchange_request name flags) =
    exchange_method (Frame.Exchange.delete 0 name (from_bools (has flags ifunused ∷ false ∷ [])))
method_of (declare_queue_request name flags arguments) =
    let bools = from_bools (
      has flags passive
      ∷ has flags durable
      ∷ has flags exclusive
      ∷ has flags autodelete
      ∷ false
      ∷ []) in
    queue_method (Frame.Queue.declare (pos 0) name bools arguments)
method_of (bind_queue_request exchange queue routing_key arguments) =
    queue_method (Frame.Queue.bind 0 queue exchange routing_key (from_bools (false ∷ [])) arguments)
method_of (unbind_queue_request exchange queue routing_key arguments) =
    queue_method (Frame.Queue.unbind (pos 0) queue exchange routing_key arguments)
method_of (purge_queue_request name) =
    queue_method (Frame.Queue.purge (pos 0) name (from_bools (false ∷ [])))
method_of (remove_queue_request name flags) = queue_method (
    Frame.Queue.delete (pos 0) name
      (from_bools (has flags ifunused ∷ has flags ifempty ∷ false ∷ [])))
method_of (set_qos_request prefetch_count global) =
    basic_method
      (Frame.Basic.qos (pos 0) (of_word (2 ^ 16) prefetch_count) (from_bools (global ∷ [])))
method_of (consume_request queue tag flags arguments) =
    let bools =
      from_bools (has flags nolocal ∷ has flags noack ∷ has flags exclusive ∷ false ∷ []) in
    basic_method (Frame.Basic.consume 0 queue tag bools arguments)
method_of (cancel_request tag) = basic_method (Frame.Basic.cancel tag (from_bools (false ∷ [])))
method_of (get_request queue flags) =
    basic_method (Frame.Basic.get_message 0 queue (from_bools (has flags noack ∷ [])))
method_of (recover_request flags) =
    basic_method (Frame.Basic.recover (from_bools (has flags requeue_flag ∷ [])))

-- Every operation pushes the frame of its method.
pub perform-push :
    (d : ℕ) (c : ChannelImpl) (k : ConnectionImpl) (r : Request)
    → perform d c k r ≡ push d c k (method_frame c.id (method_of r))
unfolding perform method_of
perform-push d c k pause_request = refl
perform-push d c k resume_request = refl
perform-push d c k confirm_select_request = refl
perform-push d c k start_transaction_request = refl
perform-push d c k commit_transaction_request = refl
perform-push d c k rollback_transaction_request = refl
perform-push d c k (declare_exchange_request name type flags arguments) = refl
perform-push d c k (bind_exchange_request source target routing_key arguments) = refl
perform-push d c k (unbind_exchange_request source target routing_key arguments) = refl
perform-push d c k (remove_exchange_request name flags) = refl
perform-push d c k (declare_queue_request name flags arguments) = refl
perform-push d c k (bind_queue_request exchange queue routing_key arguments) = refl
perform-push d c k (unbind_queue_request exchange queue routing_key arguments) = refl
perform-push d c k (purge_queue_request name) = refl
perform-push d c k (remove_queue_request name flags) = refl
perform-push d c k (set_qos_request prefetch_count global) = refl
perform-push d c k (consume_request queue tag flags arguments) = refl
perform-push d c k (cancel_request tag) = refl
perform-push d c k (get_request queue flags) = refl
perform-push d c k (recover_request flags) = refl
