-- ===== src/Connection/Order.antt =====
-- The order of frames through the two `send` and `setReady` of src/connectionimpl.cpp.
use mathlib.Core.List.{map-append}
use amqp_cpp.Base.{
  ℕ, ◌≡◌, refl, sym, true, false, List, [], ◌∷◌, ◌++◌, append_assoc, append-nil, arith,
  if◌then◌else◌,
}
use amqp_cpp.Frame.{Frame, copied_buffer}
use amqp_cpp.Connection.{
  ConnectionImpl, CopiedBuffer, copy, send, send_copy, set_ready, part_of_handshake, is_empty,
  all_bytes,
}

-- Everything that was accepted, in order: what the handler has, then what waits.
abbrev pub pipeline : ConnectionImpl → List (List ℕ)
pipeline c = c.sent ++ all_bytes c.queue

all_bytes-append :
    (q : List CopiedBuffer) (b : CopiedBuffer)
    → all_bytes (q ++ (b ∷ [])) ≡ all_bytes q ++ (b.bytes ∷ [])
all_bytes-append q b = map-append _ q (b ∷ [])

pipeline_wait :
    (sent : List (List ℕ)) (q : List CopiedBuffer) (b : CopiedBuffer)
    → sent ++ all_bytes (q ++ (b ∷ [])) ≡ (sent ++ all_bytes q) ++ (b.bytes ∷ [])
pipeline_wait sent q b =
    rw (all_bytes-append q b) (sym (append_assoc sent (all_bytes q) (b.bytes ∷ [])))

pipeline_pass :
    (sent : List (List ℕ)) (q : List CopiedBuffer) (bytes : List ℕ)
    → is_empty q ≡ true
    → (sent ++ (bytes ∷ [])) ++ all_bytes q ≡ (sent ++ all_bytes q) ++ (bytes ∷ [])
pipeline_pass sent [] bytes h = rw (append-nil, append-nil)
pipeline_pass sent (x ∷ q) bytes h = cc

-- A frame that is no part of the handshake goes behind everything that was accepted before it, and a
-- refused one changes nothing of what was accepted.
pub pipeline-send :
    (c : ConnectionImpl) (frame : Frame)
    → part_of_handshake frame ≡ false
    → let (c', accepted) = send c frame in
      pipeline c' ≡ (if accepted then pipeline c ++ (copied_buffer frame ∷ []) else pipeline c)
unfolding send
pipeline-send c frame h = ground (
  arith,
  pipeline_wait c.sent c.queue (copy frame),
  pipeline_pass c.sent c.queue (copied_buffer frame),
)

-- A frame that a channel had kept back goes behind everything that was accepted before it, and a
-- refused one changes nothing of what was accepted.
pub pipeline-send_copy :
    (c : ConnectionImpl) (buffer : CopiedBuffer)
    → let (c', accepted) = send_copy c buffer in
      pipeline c' ≡ (if accepted then pipeline c ++ (buffer.bytes ∷ []) else pipeline c)
unfolding send_copy
pipeline-send_copy c buffer =
    ground (arith, pipeline_wait c.sent c.queue buffer, pipeline_pass c.sent c.queue buffer.bytes)

-- When the connection becomes ready, what waited goes out in order, and nothing waits any more.
pub pipeline-set_ready :
    (c : ConnectionImpl) → (pipeline (set_ready c) ≡ pipeline c) × ((set_ready c).queue ≡ [])
unfolding set_ready
pipeline-set_ready c = (append-nil _, refl)
