-- ===== src/Channel/Operations.antt =====
-- The operations of src/channelimpl.cpp that send a request and put a deferred object into the chain,
-- with the flags of src/flags.cpp and the types of include/amqpcpp/exchangetype.h. The object of an
-- operation has the number `d`; the kinds of these objects differ in what their callbacks take.
pub mod Perform
pub mod Requests
pub mod Peer
pub mod Unanswered
use amqp_cpp.Base.{ℕ, ◌^◌, Bool, true, false, List, [], ◌∷◌}
use amqp_cpp.Base.Int.{ℤ, pos, of_word}
use amqp_cpp.Field.{FieldMap}
use amqp_cpp.Field.BooleanSet.{from_bools}
use amqp_cpp.Frame.{
  Frame, Method, method_frame, channel_method, exchange_method, queue_method, basic_method,
  confirm_method, transaction_method,
}
use amqp_cpp.Frame.Channel
use amqp_cpp.Frame.Exchange
use amqp_cpp.Frame.Queue
use amqp_cpp.Frame.Basic
use amqp_cpp.Frame.Confirm
use amqp_cpp.Frame.Transaction
use amqp_cpp.Connection.{ConnectionImpl}
use amqp_cpp.Channel.{ChannelImpl, Result, push}
use amqp_cpp.Channel.Publish.{has}

pub data ExchangeType : Type 0 where
  fanout direct topic headers consistent_hash message_deduplication : ExchangeType

abbrev pub durable : ℕ
durable = 0x1

abbrev pub autodelete : ℕ
autodelete = 0x2

abbrev pub passive : ℕ
passive = 0x8

abbrev pub ifunused : ℕ
ifunused = 0x10

abbrev pub ifempty : ℕ
ifempty = 0x20

abbrev pub nolocal : ℕ
nolocal = 0x80

abbrev pub noack : ℕ
noack = 0x100

abbrev pub exclusive : ℕ
exclusive = 0x200

abbrev pub nowait : ℕ
nowait = 0x400

abbrev pub requeue_flag : ℕ
requeue_flag = 0x8000

abbrev pub internal : ℕ
internal = 0x10000

unfoldable pub type_name : ExchangeType → List ℕ
type_name fanout = b'f' ∷ b'a' ∷ b'n' ∷ b'o' ∷ b'u' ∷ b't' ∷ []
type_name direct = b'd' ∷ b'i' ∷ b'r' ∷ b'e' ∷ b'c' ∷ b't' ∷ []
type_name topic = b't' ∷ b'o' ∷ b'p' ∷ b'i' ∷ b'c' ∷ []
type_name headers = b'h' ∷ b'e' ∷ b'a' ∷ b'd' ∷ b'e' ∷ b'r' ∷ b's' ∷ []
type_name consistent_hash =
    b'x' ∷ b'-' ∷ b'c' ∷ b'o' ∷ b'n' ∷ b's' ∷ b'i' ∷ b's' ∷ b't' ∷ b'e' ∷ b'n' ∷ b't' ∷ b'-' ∷ b'h'
    ∷ b'a' ∷ b's' ∷ b'h' ∷ []
type_name message_deduplication =
    b'x' ∷ b'-' ∷ b'm' ∷ b'e' ∷ b's' ∷ b's' ∷ b'a' ∷ b'g' ∷ b'e' ∷ b'-' ∷ b'd' ∷ b'e' ∷ b'd' ∷ b'u'
    ∷ b'p' ∷ b'l' ∷ b'i' ∷ b'c' ∷ b'a' ∷ b't' ∷ b'i' ∷ b'o' ∷ b'n' ∷ []

unfoldable pub pause : ℕ → ChannelImpl → ConnectionImpl → Result
unfolding push from_bools
pause d c k =
    push d c k (method_frame c.id (channel_method (Channel.flow (from_bools (false ∷ [])))))

unfoldable pub resume : ℕ → ChannelImpl → ConnectionImpl → Result
unfolding push from_bools
resume d c k =
    push d c k (method_frame c.id (channel_method (Channel.flow (from_bools (true ∷ [])))))

unfoldable pub confirm_select : ℕ → ChannelImpl → ConnectionImpl → Result
unfolding push from_bools
confirm_select d c k =
    push d c k (method_frame c.id (confirm_method (Confirm.select (from_bools (false ∷ [])))))

unfoldable pub start_transaction : ℕ → ChannelImpl → ConnectionImpl → Result
unfolding push from_bools
start_transaction d c k = push d c k (method_frame c.id (transaction_method Transaction.select))

unfoldable pub commit_transaction : ℕ → ChannelImpl → ConnectionImpl → Result
unfolding push from_bools
commit_transaction d c k = push d c k (method_frame c.id (transaction_method Transaction.commit))

unfoldable pub rollback_transaction : ℕ → ChannelImpl → ConnectionImpl → Result
unfolding push from_bools
rollback_transaction d c k =
    push d c k (method_frame c.id (transaction_method Transaction.rollback))

unfoldable pub declare_exchange :
    ℕ → ChannelImpl → ConnectionImpl → List ℕ → ExchangeType → ℕ → FieldMap → Result
unfolding push from_bools has type_name
declare_exchange d c k name type flags arguments =
    let bools = from_bools (
      has flags passive
      ∷ has flags durable
      ∷ has flags autodelete
      ∷ has flags internal
      ∷ has flags nowait
      ∷ []) in
    push d c k (
      method_frame c.id
        (exchange_method (Exchange.declare 0 name (type_name type) bools arguments)))

unfoldable pub bind_exchange :
    ℕ → ChannelImpl → ConnectionImpl → List ℕ → List ℕ → List ℕ → FieldMap → Result
unfolding push from_bools
bind_exchange d c k source target routing_key arguments = push d c k (
    method_frame c.id (
      exchange_method
        (Exchange.bind 0 target source routing_key (from_bools (false ∷ [])) arguments)))

unfoldable pub unbind_exchange :
    ℕ → ChannelImpl → ConnectionImpl → List ℕ → List ℕ → List ℕ → FieldMap → Result
unfolding push from_bools
unbind_exchange d c k source target routing_key arguments = push d c k (
    method_frame c.id (
      exchange_method
        (Exchange.unbind 0 target source routing_key (from_bools (false ∷ [])) arguments)))

unfoldable pub remove_exchange : ℕ → ChannelImpl → ConnectionImpl → List ℕ → ℕ → Result
unfolding push from_bools has
remove_exchange d c k name flags = push d c k (
    method_frame c.id
      (exchange_method (Exchange.delete 0 name (from_bools (has flags ifunused ∷ false ∷ [])))))

unfoldable pub declare_queue : ℕ → ChannelImpl → ConnectionImpl → List ℕ → ℕ → FieldMap → Result
unfolding push from_bools has
declare_queue d c k name flags arguments =
    let bools = from_bools (
      has flags passive
      ∷ has flags durable
      ∷ has flags exclusive
      ∷ has flags autodelete
      ∷ false
      ∷ []) in
    push d c k (method_frame c.id (queue_method (Queue.declare (pos 0) name bools arguments)))

unfoldable pub bind_queue :
    ℕ → ChannelImpl → ConnectionImpl → List ℕ → List ℕ → List ℕ → FieldMap → Result
unfolding push from_bools
bind_queue d c k exchange queue routing_key arguments = push d c k (
    method_frame c.id
      (queue_method (Queue.bind 0 queue exchange routing_key (from_bools (false ∷ [])) arguments)))

unfoldable pub unbind_queue :
    ℕ → ChannelImpl → ConnectionImpl → List ℕ → List ℕ → List ℕ → FieldMap → Result
unfolding push from_bools
unbind_queue d c k exchange queue routing_key arguments =
    push d c k
      (method_frame c.id (queue_method (Queue.unbind (pos 0) queue exchange routing_key arguments)))

unfoldable pub purge_queue : ℕ → ChannelImpl → ConnectionImpl → List ℕ → Result
unfolding push from_bools
purge_queue d c k name =
    push d c k
      (method_frame c.id (queue_method (Queue.purge (pos 0) name (from_bools (false ∷ [])))))

unfoldable pub remove_queue : ℕ → ChannelImpl → ConnectionImpl → List ℕ → ℕ → Result
unfolding push from_bools has
remove_queue d c k name flags = push d c k (
    method_frame c.id (
      queue_method (
        Queue.delete (pos 0) name
          (from_bools (has flags ifunused ∷ has flags ifempty ∷ false ∷ [])))))

unfoldable pub set_qos : ℕ → ChannelImpl → ConnectionImpl → ℕ → Bool → Result
unfolding push from_bools
set_qos d c k prefetch_count global = push d c k (
    method_frame c.id (
      basic_method
        (Basic.qos (pos 0) (of_word (2 ^ 16) prefetch_count) (from_bools (global ∷ [])))))

unfoldable pub consume : ℕ → ChannelImpl → ConnectionImpl → List ℕ → List ℕ → ℕ → FieldMap → Result
unfolding push from_bools has
consume d c k queue tag flags arguments =
    let bools =
      from_bools (has flags nolocal ∷ has flags noack ∷ has flags exclusive ∷ false ∷ []) in
    push d c k (method_frame c.id (basic_method (Basic.consume 0 queue tag bools arguments)))

unfoldable pub cancel : ℕ → ChannelImpl → ConnectionImpl → List ℕ → Result
unfolding push from_bools
cancel d c k tag =
    push d c k (method_frame c.id (basic_method (Basic.cancel tag (from_bools (false ∷ [])))))

unfoldable pub get : ℕ → ChannelImpl → ConnectionImpl → List ℕ → ℕ → Result
unfolding push from_bools has
get d c k queue flags = push d c k (
    method_frame c.id
      (basic_method (Basic.get_message 0 queue (from_bools (has flags noack ∷ [])))))

unfoldable pub recover : ℕ → ChannelImpl → ConnectionImpl → ℕ → Result
unfolding push from_bools has
recover d c k flags =
    push d c k
      (method_frame c.id (basic_method (Basic.recover (from_bools (has flags requeue_flag ∷ [])))))
