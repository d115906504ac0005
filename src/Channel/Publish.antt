-- ===== src/Channel/Publish.antt =====
-- `ChannelImpl::publish` of src/channelimpl.cpp: a message leaves as a method frame, a header frame and
-- body frames of at most `maxPayload` bytes. include/amqpcpp/envelope.h and the flags of src/flags.cpp.
-- The loop over the body recurs on fuel, one more than the length of the body; `none` is running out.
pub mod Frames
pub mod Endless
use Prim.Native.Nat.{bit_and}
use amqp_cpp.Base.{
  ℕ, zero, suc, ◌-◌, Bool, true, false, not, ◌==◌, if◌then◌else◌, List, [], ◌∷◌, length, take, drop,
  min, Option, none, some,
}
use amqp_cpp.Base.Int.{pos}
use amqp_cpp.Field.BooleanSet.{from_bools}
use amqp_cpp.MetaData.{MetaData}
use amqp_cpp.Frame.{Frame, method_frame, header_frame, body_frame, basic_method}
use amqp_cpp.Frame.Basic
use amqp_cpp.Connection.{ConnectionImpl, is_empty}
use amqp_cpp.Channel.{ChannelImpl, Result, send, max_payload}

pub record Envelope : Type 0 where
  pub properties : MetaData
  pub body : List ℕ

-- `(flags & flag) != 0`
unfoldable pub has : ℕ → ℕ → Bool
has flags flag = not (bit_and flags flag == 0)

abbrev pub mandatory : ℕ
mandatory = 0x800

abbrev pub immediate : ℕ
immediate = 0x1000

unfoldable pub publish_frame : ℕ → List ℕ → List ℕ → ℕ → Frame
unfolding has from_bools
publish_frame id exchange routing_key flags =
    let bools = from_bools (has flags mandatory ∷ has flags immediate ∷ []) in
    method_frame id (basic_method (Basic.publish (pos 0) exchange routing_key bools))

-- `BasicHeaderFrame(channel, envelope)`, with the weight 0.
unfoldable pub envelope_header : ℕ → Envelope → Frame
envelope_header id envelope = header_frame id 0 (length envelope.body) envelope.properties

unfoldable pub chunk_loop : ℕ → ℕ → List ℕ → ChannelImpl → ConnectionImpl → Option Result
chunk_loop zero max left c k = if is_empty left then some (c, k, true) else none
chunk_loop (suc n) max left c k =
    let size = min max (length left) in
    let (c', k', sent) = send c k (body_frame c.id (take size left)) in
    let rest = chunk_loop n max (drop size left) c' k' in
    if is_empty left then some (c, k, true) else if sent then rest else some (c', k', false)

-- The body behind the header: nothing for an empty one.
unfoldable pub publish_body : List ℕ → ChannelImpl → ConnectionImpl → Option Result
unfolding chunk_loop
publish_body body c k =
    if is_empty body
    then some (c, k, true)
    else if not c.linked
    then some (c, k, false)
    else chunk_loop (suc (length body)) (max_payload k) body c k

unfoldable pub publish :
    ChannelImpl → ConnectionImpl → List ℕ → List ℕ → Envelope → ℕ → Option Result
unfolding publish_body
publish c k exchange routing_key envelope flags =
    let (c', k', sent) = send c k (publish_frame c.id exchange routing_key flags) in
    let (c'', k'', sent') = send c' k' (envelope_header c'.id envelope) in
    if not sent
    then some (c', k', false)
    else if not sent'
    then some (c'', k'', false)
    else publish_body envelope.body c'' k''
