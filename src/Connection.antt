-- ===== src/Connection.antt =====
-- include/amqpcpp/connectionimpl.h and src/connectionimpl.cpp: the state of a connection, and how
-- frames reach the handler. `sent` is what `ConnectionHandler::onData` was given, a frame at a time; the
-- callbacks of the handler are code of the user, and are taken to make no calls of their own.
pub mod Order
pub mod Channels
pub mod Parse
use amqp_cpp.Base.{
  ℕ, ◌+◌, ◌<◌, Bool, true, false, not, ◌&&◌, ◌||◌, ltb, if◌then◌else◌, List, [], ◌∷◌, ◌++◌, map,
}
use amqp_cpp.Frame.{Frame, method_frame, connection_method, copied_buffer, total_size, synchronous}
use amqp_cpp.Frame.Connection.{start_ok, tune_ok, connection_open, close}

-- `CopiedBuffer`: the bytes of a frame, and whether the frame was synchronous.
pub record CopiedBuffer : Type 0 where
  pub bytes : List ℕ
  pub is_synchronous : Bool

unfoldable pub copy : Frame → CopiedBuffer
copy frame = record { bytes = copied_buffer frame; is_synchronous = synchronous frame }

pub data State : Type 0 where
  protocol handshake connected closing closed : State

pub record ConnectionImpl : Type 0 where
  pub state : State
  pub is_closed : Bool
  pub max_frame : ℕ
  pub queue : List CopiedBuffer
  pub sent : List (List ℕ)

unfoldable pub part_of_handshake : Frame → Bool
part_of_handshake (method_frame id (connection_method (start_ok a b c d))) = true
part_of_handshake (method_frame id (connection_method (tune_ok a b c))) = true
part_of_handshake (method_frame id (connection_method (connection_open a b c))) = true
part_of_handshake frame = false

unfoldable pub part_of_shutdown : Frame → Bool
part_of_shutdown (method_frame id (connection_method (close a b c d))) = true
part_of_shutdown frame = false

unfoldable pub is_connected : State → Bool
is_connected connected = true
is_connected s = false

unfoldable pub is_ending : State → Bool
is_ending closing = true
is_ending closed = true
is_ending s = false

abbrev pub is_empty {ℓ} : {A : Type ℓ} → List A → Bool
is_empty [] = true
is_empty (x ∷ xs) = false

-- The first three tests of `send(const Frame &)`.
unfoldable pub refuses : ConnectionImpl → Frame → Bool
refuses c frame =
    is_ending c.state
    || (c.is_closed && not (part_of_shutdown frame) && not (part_of_handshake frame))
    || (ltb 0 c.max_frame && ltb c.max_frame (total_size frame))

-- `send(const Frame &)`.
unfoldable pub send : ConnectionImpl → Frame → ConnectionImpl × Bool
unfolding refuses copy is_connected is_ending
send c frame =
    if refuses c frame
    then (c, false)
    else if (is_connected c.state && is_empty c.queue) || part_of_handshake frame
    then (record c { sent = c.sent ++ (copied_buffer frame ∷ []) }, true)
    else (record c { queue = c.queue ++ (copy frame ∷ []) }, true)

-- `send(CopiedBuffer &&)`.
unfoldable pub send_copy : ConnectionImpl → CopiedBuffer → ConnectionImpl × Bool
unfolding is_connected
send_copy c buffer =
    if not (is_connected c.state)
    then (c, false)
    else if is_empty c.queue
    then (record c { sent = c.sent ++ (buffer.bytes ∷ []) }, true)
    else (record c { queue = c.queue ++ (buffer ∷ []) }, true)

abbrev pub all_bytes : List CopiedBuffer → List (List ℕ)
all_bytes = map λ b. b.bytes

-- `setReady` up to its last test: the queue goes to the handler in order.
unfoldable pub set_ready : ConnectionImpl → ConnectionImpl
set_ready c = record c { state = connected; sent = c.sent ++ all_bytes c.queue; queue = [] }
