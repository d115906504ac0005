-- ===== src/Channel/Operations/Peer.antt =====
-- What a peer makes of the requests of src/channelimpl.cpp, by the fields, bits and names of the protocol.
use mathlib.Core.Option
use amqp_cpp.Base.{
  ℕ, suc, ◌+◌, ◌^◌, ◌<◌, ◌≤◌, ◌≡◌, refl, sym, ap₂, ◌∙◌, Bool, true, false, if◌then◌else◌, List, [],
  ◌∷◌, ◌++◌, map, length, Option, none, some, append_assoc, length-append, arith, inl,
}
use amqp_cpp.Base.Int.{to_word, of_word}
use amqp_cpp.Wire.{ok}
use amqp_cpp.Wire.Reads.{at}
use amqp_cpp.Field.BooleanSet.{get, from_bools, get-from_bools, bool_at}
use amqp_cpp.Frame
use amqp_cpp.Frame.{
  Frame, Method, method_frame, channel_method, exchange_method, queue_method, basic_method,
  confirm_method, transaction_method, copied_buffer,
}
use amqp_cpp.Frame.Parse.{parse-copied_buffer}
use amqp_cpp.Frame.Received.{ReceivedFrame, received_frame, complete, read_frame}
use amqp_cpp.Login.{str_eq}
use amqp_cpp.Connection.{ConnectionImpl}
use amqp_cpp.Channel.{ChannelImpl, push}
use amqp_cpp.Channel.Publish.{has}
use amqp_cpp.Channel.Operations.{
  ExchangeType, type_name, durable, autodelete, passive, ifunused, ifempty, nolocal, noack,
  exclusive, nowait, requeue_flag, internal, fanout, direct, topic, headers, consistent_hash,
  message_deduplication,
}
use amqp_cpp.Channel.Operations.Perform.{
  Request, perform, method_of, perform-push, pause_request, resume_request, confirm_select_request,
  start_transaction_request, commit_transaction_request, rollback_transaction_request,
  declare_exchange_request, bind_exchange_request, unbind_exchange_request, remove_exchange_request,
  declare_queue_request, bind_queue_request, unbind_queue_request, purge_queue_request,
  remove_queue_request, set_qos_request, consume_request, cancel_request, get_request,
  recover_request,
}
use amqp_cpp.Channel.Operations.Requests.{Fits, method_of-IsValid, method_of-IsWritten}

-- The flags that the bits stand for, from bit `i` on.
unfoldable pub read_flags : ℕ → ℕ → List ℕ → ℕ
read_flags bits i [] = 0
read_flags bits i (f ∷ fs) = (if get bits i then f else 0) + read_flags bits (suc i) fs

-- Of the flags that a program passes, those that are in a list.
unfoldable pub among : ℕ → List ℕ → ℕ
among flags [] = 0
among flags (f ∷ fs) = (if has flags f then f else 0) + among flags fs

-- The bits of each method in the order of the protocol.
abbrev exchange_bits : List ℕ
exchange_bits = passive ∷ durable ∷ autodelete ∷ internal ∷ nowait ∷ []

abbrev queue_bits : List ℕ
queue_bits = passive ∷ durable ∷ exclusive ∷ autodelete ∷ []

abbrev queue_delete_bits : List ℕ
queue_delete_bits = ifunused ∷ ifempty ∷ []

abbrev consume_bits : List ℕ
consume_bits = nolocal ∷ noack ∷ exclusive ∷ []

-- The exchange types of the protocol and of the two plugins.
unfoldable pub type_of : List ℕ → Option ExchangeType
type_of s =
    if str_eq s (b'f' ∷ b'a' ∷ b'n' ∷ b'o' ∷ b'u' ∷ b't' ∷ [])
    then some fanout
    else if str_eq s (b'd' ∷ b'i' ∷ b'r' ∷ b'e' ∷ b'c' ∷ b't' ∷ [])
    then some direct
    else if str_eq s (b't' ∷ b'o' ∷ b'p' ∷ b'i' ∷ b'c' ∷ [])
    then some topic
    else if str_eq s (b'h' ∷ b'e' ∷ b'a' ∷ b'd' ∷ b'e' ∷ b'r' ∷ b's' ∷ [])
    then some headers
    else if str_eq s (
        b'x' ∷ b'-' ∷ b'c' ∷ b'o' ∷ b'n' ∷ b's' ∷ b'i' ∷ b's' ∷ b't' ∷ b'e' ∷ b'n' ∷ b't' ∷ b'-'
        ∷ b'h' ∷ b'a' ∷ b's' ∷ b'h' ∷ [])
    then some consistent_hash
    else if str_eq s (
        b'x' ∷ b'-' ∷ b'm' ∷ b'e' ∷ b's' ∷ b's' ∷ b'a' ∷ b'g' ∷ b'e' ∷ b'-' ∷ b'd' ∷ b'e' ∷ b'd'
        ∷ b'u' ∷ b'p' ∷ b'l' ∷ b'i' ∷ b'c' ∷ b'a' ∷ b't' ∷ b'i' ∷ b'o' ∷ b'n' ∷ [])
    then some message_deduplication
    else none

-- What a method asks for; `none` for the methods that are answers or not a channel's own.
unfoldable pub request_of : Method → Option Request
request_of (channel_method (Frame.Channel.flow b)) =
    some (if get b 0 then resume_request else pause_request)
request_of (confirm_method (Frame.Confirm.select b)) = some confirm_select_request
request_of (transaction_method Frame.Transaction.select) = some start_transaction_request
request_of (transaction_method Frame.Transaction.commit) = some commit_transaction_request
request_of (transaction_method Frame.Transaction.rollback) = some rollback_transaction_request
request_of (exchange_method (Frame.Exchange.declare r name type b arguments)) =
    Option.map (λ t. declare_exchange_request name t (read_flags b 0 exchange_bits) arguments)
      (type_of type)
request_of (exchange_method (Frame.Exchange.bind r target source key b arguments)) =
    some (bind_exchange_request source target key arguments)
request_of (exchange_method (Frame.Exchange.unbind r target source key b arguments)) =
    some (unbind_exchange_request source target key arguments)
request_of (exchange_method (Frame.Exchange.delete r name b)) =
    some (remove_exchange_request name (read_flags b 0 (ifunused ∷ [])))
request_of (queue_method (Frame.Queue.declare r name b arguments)) =
    some (declare_queue_request name (read_flags b 0 queue_bits) arguments)
request_of (queue_method (Frame.Queue.bind r queue exchange key b arguments)) =
    some (bind_queue_request exchange queue key arguments)
request_of (queue_method (Frame.Queue.unbind r queue exchange key arguments)) =
    some (unbind_queue_request exchange queue key arguments)
request_of (queue_method (Frame.Queue.purge r name b)) = some (purge_queue_request name)
request_of (queue_method (Frame.Queue.delete r name b)) =
    some (remove_queue_request name (read_flags b 0 queue_delete_bits))
request_of (basic_method (Frame.Basic.qos size count b)) =
    some (set_qos_request (to_word (2 ^ 16) count) (get b 0))
request_of (basic_method (Frame.Basic.consume r queue tag b arguments)) =
    some (consume_request queue tag (read_flags b 0 consume_bits) arguments)
request_of (basic_method (Frame.Basic.cancel tag b)) = some (cancel_request tag)
request_of (basic_method (Frame.Basic.get_message r queue b)) =
    some (get_request queue (read_flags b 0 (noack ∷ [])))
request_of (basic_method (Frame.Basic.recover b)) =
    some (recover_request (read_flags b 0 (requeue_flag ∷ [])))
request_of m = none

-- The request with the flags that its operation has; others make no difference.
unfoldable pub honoured : Request → Request
honoured (declare_exchange_request name type flags arguments) =
    declare_exchange_request name type (among flags exchange_bits) arguments
honoured (remove_exchange_request name flags) =
    remove_exchange_request name (among flags (ifunused ∷ []))
honoured (declare_queue_request name flags arguments) =
    declare_queue_request name (among flags queue_bits) arguments
honoured (remove_queue_request name flags) =
    remove_queue_request name (among flags queue_delete_bits)
honoured (consume_request queue tag flags arguments) =
    consume_request queue tag (among flags consume_bits) arguments
honoured (get_request queue flags) = get_request queue (among flags (noack ∷ []))
honoured (recover_request flags) = recover_request (among flags (requeue_flag ∷ []))
honoured r = r

bool_at-middle : (xs ys : List Bool) (b : Bool) → bool_at (xs ++ (b ∷ ys)) (length xs) ≡ b
bool_at-middle [] ys b = refl
bool_at-middle (x ∷ xs) ys b = bool_at-middle xs ys b

flags_from :
    (flags : ℕ) (fs : List ℕ) (before after : List Bool)
    → length (before ++ (map (has flags) fs ++ after)) ≤ 8
    → read_flags (from_bools (before ++ (map (has flags) fs ++ after))) (length before) fs
      ≡ among flags fs
unfolding read_flags among
flags_from flags [] before after h = refl
flags_from flags (f ∷ fs) before after h =
    let rest = map (has flags) fs ++ after in
    let bit : get (from_bools (before ++ (has flags f ∷ rest))) (length before) ≡ has flags f =
      get-from_bools (before ++ (has flags f ∷ rest)) (length before) h
      ∙ bool_at-middle before rest (has flags f) in
    let assoc : (before ++ (has flags f ∷ [])) ++ rest ≡ before ++ (has flags f ∷ rest) =
      append_assoc before (has flags f ∷ []) rest in
    let shift : length (before ++ (has flags f ∷ [])) ≡ suc (length before) =
      length-append before (has flags f ∷ []) ∙ omega arith in
    let ih = flags_from flags fs (before ++ (has flags f ∷ [])) after (rw assoc h) in
    let same : read_flags (from_bools (before ++ (has flags f ∷ rest))) (suc (length before)) fs
        ≡ among flags fs =
      ap₂ (λ v n. read_flags (from_bools v) n fs) (sym assoc) (sym shift) ∙ ih in
    ap₂ (λ b n. (if b then f else 0) + n) bit same

flags_lem :
    (flags : ℕ) (fs : List ℕ) (after : List Bool)
    → length (map (has flags) fs ++ after) ≤ 8
    → read_flags (from_bools (map (has flags) fs ++ after)) 0 fs ≡ among flags fs
flags_lem flags fs after h = flags_from flags fs [] after h

type_of-type_name : (t : ExchangeType) → type_of (type_name t) ≡ some t
unfolding type_of type_name str_eq
type_of-type_name fanout = refl
type_of-type_name direct = refl
type_of-type_name topic = refl
type_of-type_name headers = refl
type_of-type_name consistent_hash = refl
type_of-type_name message_deduplication = refl

count_lem : (n : ℕ) → n < 2 ^ 16 → to_word (2 ^ 16) (of_word (2 ^ 16) n) ≡ n
count_lem n h = ground arith

request_of-method_of : (r : Request) → Fits r → request_of (method_of r) ≡ some (honoured r)
unfolding request_of method_of honoured
request_of-method_of pause_request h = rw (get-from_bools (false ∷ []) 0 (omega arith)) refl
request_of-method_of resume_request h = rw (get-from_bools (true ∷ []) 0 (omega arith)) refl
request_of-method_of confirm_select_request h = refl
request_of-method_of start_transaction_request h = refl
request_of-method_of commit_transaction_request h = refl
request_of-method_of rollback_transaction_request h = refl
request_of-method_of (declare_exchange_request name type flags arguments) h =
    rw (type_of-type_name type, flags_lem flags exchange_bits [] (omega arith)) refl
request_of-method_of (bind_exchange_request source target routing_key arguments) h = refl
request_of-method_of (unbind_exchange_request source target routing_key arguments) h = refl
request_of-method_of (remove_exchange_request name flags) h =
    rw (flags_lem flags (ifunused ∷ []) (false ∷ []) (omega arith)) refl
request_of-method_of (declare_queue_request name flags arguments) h =
    rw (flags_lem flags queue_bits (false ∷ []) (omega arith)) refl
request_of-method_of (bind_queue_request exchange queue routing_key arguments) h = refl
request_of-method_of (unbind_queue_request exchange queue routing_key arguments) h = refl
request_of-method_of (purge_queue_request name) h = refl
request_of-method_of (remove_queue_request name flags) h =
    rw (flags_lem flags queue_delete_bits (false ∷ []) (omega arith)) refl
request_of-method_of (set_qos_request prefetch_count global) h =
    rw (count_lem prefetch_count h, get-from_bools (global ∷ []) 0 (omega arith)) refl
request_of-method_of (consume_request queue tag flags arguments) h =
    rw (flags_lem flags consume_bits (false ∷ []) (omega arith)) refl
request_of-method_of (cancel_request tag) h = refl
request_of-method_of (get_request queue flags) h =
    rw (flags_lem flags (noack ∷ []) [] (omega arith)) refl
request_of-method_of (recover_request flags) h =
    rw (flags_lem flags (requeue_flag ∷ []) [] (omega arith)) refl

-- Each of the operations that put a request into the chain, but closing, and with arguments that the
-- protocol can carry: it pushes one method frame. A peer that gets the bytes of that frame, whatever
-- follows them, reads a method, and by the protocol this method asks for the same operation with the same
-- names, type, numbers, table and flags, less the flags that the operation does not have.
pub parse-request :
    (d : ℕ) (c : ChannelImpl) (k : ConnectionImpl) (r : Request) (rest : List ℕ)
    → c.id < 2 ^ 16
    → Fits r
    → length (copied_buffer (method_frame c.id (method_of r))) < 2 ^ 32
    → length (copied_buffer (method_frame c.id (method_of r)) ++ rest) < 2 ^ 64
    → (m : Method) × (perform d c k r ≡ push d c k (method_frame c.id m))
      × (request_of m ≡ some (honoured r))
      × ((received : ReceivedFrame) × (received_frame
              (copied_buffer (method_frame c.id m) ++ rest)
              0
            ≡ ok received)
          × (complete received ≡ true)
          × (read_frame received received.position
              ≡ ok (method_frame c.id m, at (Frame.fill (method_frame c.id m)) (206 ∷ rest))))
parse-request d c k r rest h fits b l =
    let f = method_frame c.id (method_of r) in
    let (received, made, done, size, read) =
      parse-copied_buffer f rest 0 (h, method_of-IsValid r fits) (method_of-IsWritten r) b l
        (inl refl) in
    (method_of r, perform-push d c k r, request_of-method_of r fits, (received, made, done, read))
