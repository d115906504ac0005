-- ===== src/Channel.antt =====
-- include/amqpcpp/channelimpl.h, src/channelimpl.cpp and include/amqpcpp/deferred.h: the state of a
-- channel, the frames that it keeps back while it waits for an answer, and its chain of deferred
-- results. The callbacks of the user are taken to make no calls of their own and not to destruct the
-- channel, so that a `Monitor` stays valid; `reports` is what the deferred objects were told.
pub mod Order
pub mod Waiting
pub mod Answers
pub mod Release
pub mod Failure
pub mod Publish
pub mod Operations
use amqp_cpp.Base.{
  ℕ, zero, suc, ◌+◌, ◌-◌, ◌%◌, ◌^◌, ◌<◌, Bool, true, false, not, ◌&&◌, ◌||◌, ltb, leb, ◌==◌,
  if◌then◌else◌, List, [], ◌∷◌, ◌++◌, length, take, drop, min, map,
}
use amqp_cpp.Base.Int.{ℤ, pos, of_word}
use amqp_cpp.Frame.{
  Frame, method_frame, header_frame, body_frame, basic_method, channel_method, synchronous,
}
use amqp_cpp.Frame.Basic.{ack, nack, reject, publish}
use amqp_cpp.Frame.Basic
use amqp_cpp.Frame.Channel.{close}
use amqp_cpp.Field.BooleanSet.{from_bools}
use amqp_cpp.MetaData.{MetaData}
use amqp_cpp.Connection.{ConnectionImpl, CopiedBuffer, copy, is_empty}
use amqp_cpp.Connection

pub data State : Type 0 where
  connected ready closing closed : State

-- What a deferred object was told: its success, the message of the error, or that an earlier error
-- ended the channel.
pub data Report : Type 0 where
  succeeded : ℕ → Report
  failed : ℕ → Report
  channel_failed : ℕ → Report

-- `linked` tells that `_connection` is set, `deferred` is the chain from `_oldestCallback` on, by the
-- numbers of its objects.
pub record ChannelImpl : Type 0 where
  pub id : ℕ
  pub state : State
  pub linked : Bool
  pub queue : List CopiedBuffer
  pub is_synchronous : Bool
  pub deferred : List ℕ
  pub reports : List Report

abbrev pub Result : Type 0
Result = ChannelImpl × ConnectionImpl × Bool

unfoldable pub is_closed : State → Bool
is_closed closed = true
is_closed s = false

unfoldable pub is_closing : State → Bool
is_closing closing = true
is_closing s = false

unfoldable pub usable : ChannelImpl → Bool
unfolding is_closed is_closing
usable c = not (is_closed c.state) && not (is_closing c.state)

unfoldable pub waiting : ChannelImpl → Bool
waiting c = c.is_synchronous || not (is_empty c.queue)

-- `send(const Frame &)`: in the closing state the frame is dropped and counts as sent.
unfoldable pub send : ChannelImpl → ConnectionImpl → Frame → Result
unfolding is_closed is_closing waiting copy
send c k frame =
    if is_closed c.state || not c.linked
    then (c, k, false)
    else if is_closing c.state
    then (c, k, true)
    else if waiting c
    then (record c { queue = c.queue ++ (copy frame ∷ []) }, k, true)
    else (let (k', accepted) = Connection.send k frame in
        if accepted
        then (record c { is_synchronous = synchronous frame }, k', true)
        else (c, k', false))

-- `send(CopiedBuffer &&)`.
unfoldable pub send_copy : ChannelImpl → ConnectionImpl → CopiedBuffer → Result
unfolding is_closed is_closing waiting
send_copy c k buffer =
    if is_closed c.state || not c.linked
    then (c, k, false)
    else if is_closing c.state
    then (c, k, false)
    else if waiting c
    then (record c { queue = c.queue ++ (buffer ∷ []) }, k, true)
    else (let (k', accepted) = Connection.send_copy k buffer in
        if accepted
        then (record c { is_synchronous = buffer.is_synchronous }, k', true)
        else (c, k', false))

-- The loop of `flush`, over the queue from its front: the queue that is left, the flag, the
-- connection, and whether every send succeeded.
unfoldable pub flush_loop :
    List CopiedBuffer → ConnectionImpl → List CopiedBuffer × Bool × ConnectionImpl × Bool
flush_loop [] k = ([], false, k, true)
flush_loop (b ∷ q) k =
    let (k', accepted) = Connection.send_copy k b in
    let rest = flush_loop q k' in
    if not accepted
    then (q, false, k', false)
    else if b.is_synchronous
    then (q, true, k', true)
    else rest

unfoldable pub flush : ChannelImpl → ConnectionImpl → Result
unfolding flush_loop
flush c k =
    if c.linked
    then (let (q, flag, k', done) = flush_loop c.queue k in
        (record c { queue = q; is_synchronous = flag }, k', done))
    else (record c { is_synchronous = false }, k, true)

-- `push(const Frame &)` for the deferred object of that number, which knows whether the send failed;
-- the object goes to the end of the chain either way.
unfoldable pub push : ℕ → ChannelImpl → ConnectionImpl → Frame → Result
unfolding send
push d c k frame =
    let (c', k', sent) = send c k frame in
    (record c' { deferred = c'.deferred ++ (d ∷ []) }, k', sent)

-- A `uint64_t` handed to an `int64_t` parameter, and the move to the ready state.
abbrev signed64 : ℕ → ℤ
signed64 = of_word (2 ^ 64)

abbrev pub made_ready : State → State
made_ready connected = ready
made_ready s = s

unfoldable pub ack_message : ChannelImpl → ConnectionImpl → ℕ → Bool → Result
unfolding send from_bools
ack_message c k tag multiple =
    send c k (method_frame c.id (basic_method (ack tag (from_bools (multiple ∷ [])))))

-- `reject`: a nack where the flag for multiple messages is set.
unfoldable pub reject_message : ChannelImpl → ConnectionImpl → ℕ → Bool → Bool → Result
unfolding send from_bools
reject_message c k tag multiple requeue =
    if multiple
    then send c k (method_frame c.id (basic_method (nack tag (from_bools (true ∷ requeue ∷ [])))))
    else send c k
        (method_frame c.id (basic_method (reject (signed64 tag) (from_bools (requeue ∷ [])))))

-- `reportReady`, as far as the channel is concerned.
unfoldable pub report_ready : ChannelImpl → ConnectionImpl → Result
unfolding flush
report_ready c k = flush (record c { state = made_ready c.state }) k

-- `reportSuccess`: the queue is flushed and the oldest deferred object is told, if there is one.
unfoldable pub tell_oldest : List ℕ → ChannelImpl → ConnectionImpl → Result
unfolding flush
tell_oldest [] c k = (c, k, true)
tell_oldest (d ∷ ds) c k =
    let (c', k', done) = flush c k in
    (record c' { deferred = ds; reports = c'.reports ++ (succeeded d ∷ []) }, k', true)

unfoldable pub report_success : ChannelImpl → ConnectionImpl → Result
unfolding tell_oldest
report_success c k = tell_oldest c.deferred c k

-- What `reportError` tells the chain: the first object the message, the others that the channel failed.
unfoldable pub error_reports : List ℕ → List Report
error_reports [] = []
error_reports (d ∷ ds) = failed d ∷ map channel_failed ds

unfoldable pub report_error : ChannelImpl → ChannelImpl
unfolding error_reports
report_error c = record c {
  state = closed;
  linked = false;
  queue = [];
  is_synchronous = false;
  deferred = [];
  reports = c.reports ++ error_reports c.deferred;
}

-- `reportClosed`: the oldest object is told its success, the others an error, and the channel is closed.
unfoldable pub report_closed : ChannelImpl → ConnectionImpl → ChannelImpl × ConnectionImpl
unfolding report_success report_error
report_closed c k =
    let (c', k', valid) = report_success (record c { state = closed }) k in (report_error c', k')

-- `detach`.
unfoldable pub detach : ChannelImpl → ChannelImpl
detach c = record c { linked = false }

-- `Deferred::onError`: an object whose frame could not be sent is told so when the callback is set,
-- though it stays in the chain.
unfoldable pub told_at_once : ℕ → Bool → List Report
told_at_once d sent = if sent then [] else failed d ∷ []

-- `close`, whose deferred object has the number `d`.
unfoldable pub close_channel : ℕ → ChannelImpl → ConnectionImpl → Result
unfolding usable push
close_channel d c k =
    if not (usable c)
    then (record c { deferred = c.deferred ++ (d ∷ []) }, k, not (is_closing c.state))
    else (let (c', k', sent) =
          push d c k (method_frame c.id (channel_method (close (pos 0) [] (pos 0) (pos 0)))) in
        if sent then (record c' { state = closing }, k', true) else (c', k', false))

-- `maxPayload`, on `uint32_t`.
unfoldable pub max_payload : ConnectionImpl → ℕ
max_payload k = (k.max_frame + 2 ^ 32 - 8) % 2 ^ 32
