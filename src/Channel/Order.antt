-- ===== src/Channel/Order.antt =====
-- The order of frames through `ChannelImpl::send` and `ChannelImpl::flush` of src/channelimpl.cpp.
use amqp_cpp.Base.{
  ℕ, ◌≡◌, refl, sym, ap, ◌∙◌, Bool, true, false, List, [], ◌∷◌, ◌++◌, append_assoc, append-nil,
  arith, inl, inr, Bool-cases, ◌||◌, if◌then◌else◌,
}
use mathlib.Core.List.{map-append}
use amqp_cpp.Frame.{Frame, copied_buffer}
use amqp_cpp.Connection.{
  ConnectionImpl, CopiedBuffer, copy, is_empty, all_bytes, is_connected, part_of_handshake,
}
use amqp_cpp.Connection
use amqp_cpp.Connection.Order.{pipeline, pipeline-send, pipeline-send_copy}
use amqp_cpp.Channel.{ChannelImpl, usable, waiting, send, flush, flush_loop}
use amqp_cpp.Channel.Waiting.{waits, no_queue}

-- What one flush may send: the queue up to its first synchronous frame.
unfoldable pub batch : List CopiedBuffer → List CopiedBuffer
batch [] = []
batch (b ∷ q) = b ∷ (if b.is_synchronous then [] else batch q)

unfoldable pub kept : List CopiedBuffer → List CopiedBuffer
kept [] = []
kept (b ∷ q) = if b.is_synchronous then q else kept q

-- Whether the batch ends in a synchronous frame.
unfoldable pub ends_synchronous : List CopiedBuffer → Bool
ends_synchronous [] = false
ends_synchronous (b ∷ q) = b.is_synchronous || ends_synchronous q

pub batch-append-kept : (q : List CopiedBuffer) → batch q ++ kept q ≡ q
unfolding batch kept
batch-append-kept [] = refl
batch-append-kept (b ∷ q) = ground (arith, batch-append-kept q)

send_copy_accepts :
    (k : ConnectionImpl) (b : CopiedBuffer)
    → is_connected k.state ≡ true
    → ((Connection.send_copy k b).1 ≡ true) × ((Connection.send_copy k b).0.state ≡ k.state)
unfolding Connection.send_copy
send_copy_accepts k b h = ground arith

send_copy-connected :
    (k : ConnectionImpl) (b : CopiedBuffer)
    → is_connected k.state ≡ true
    → ((Connection.send_copy k b).1 ≡ true)
      × ((Connection.send_copy k b).0.state ≡ k.state)
      × (pipeline (Connection.send_copy k b).0 ≡ pipeline k ++ (b.bytes ∷ []))
send_copy-connected k b h =
    let taken = send_copy_accepts k b h in
    (taken.0, taken.1, pipeline-send_copy k b ∙ simp taken.0 refl)

-- On a connection that is connected.
flush_loop_lem :
    (q : List CopiedBuffer) (k : ConnectionImpl)
    → is_connected k.state ≡ true
    → let r = flush_loop q k in
      (r.0 ≡ kept q)
      × (r.1 ≡ ends_synchronous q)
      × (r.3 ≡ true)
      × (r.2.state ≡ k.state)
      × (pipeline r.2 ≡ pipeline k ++ all_bytes (batch q))
unfolding flush_loop batch kept ends_synchronous
flush_loop_lem [] k h = (refl, refl, refl, refl, sym (append-nil _))
flush_loop_lem (b ∷ q) k h =
    let s = send_copy-connected k b h in
    let ih = flush_loop_lem q (Connection.send_copy k b).0 (rw s.1 h) in
    elim (Bool-cases b.is_synchronous) [
      | inl last ↦ simp (s.0, last) (refl, refl, refl, s.1, s.2)
      | inr more ↦
          simp (s.0, more)
            (
              ih.0,
              ih.1,
              ih.2,
              ih.3 ∙ s.1,
              ih.4 ∙ rw s.2 (append_assoc (pipeline k) (b.bytes ∷ []) (all_bytes (batch q))),
            )
    ]

-- Every frame that the channel and its connection hold or have sent, in order.
abbrev pub stream : ChannelImpl → ConnectionImpl → List (List ℕ)
stream c k = pipeline k ++ all_bytes c.queue

all_bytes-append : (p q : List CopiedBuffer) → all_bytes (p ++ q) ≡ all_bytes p ++ all_bytes q
all_bytes-append p q = map-append _ p q

flush_parts :
    (c : ChannelImpl) (k : ConnectionImpl)
    → c.linked ≡ true
    → let r = flush_loop c.queue k in
      flush c k ≡ (record c { queue = r.0; is_synchronous = r.1 }, r.2, r.3)
unfolding flush
flush_parts c k l = ground arith

batch_then_kept :
    (k : ConnectionImpl) (q : List CopiedBuffer)
    → (pipeline k ++ all_bytes (batch q)) ++ all_bytes (kept q) ≡ pipeline k ++ all_bytes q
batch_then_kept k q =
    append_assoc (pipeline k) (all_bytes (batch q)) (all_bytes (kept q))
    ∙ ap (λ b. pipeline k ++ b)
        (sym (all_bytes-append (batch q) (kept q)) ∙ ap all_bytes (batch-append-kept q))

-- On a connected connection, flushing a linked channel succeeds; it hands over the frames up to the
-- first synchronous one and no further, it waits for an answer exactly if there was one, and no frame
-- is lost, doubled or overtaken.
pub stream-flush :
    (c : ChannelImpl) (k : ConnectionImpl)
    → c.linked ≡ true
    → is_connected k.state ≡ true
    → let (c', k', done) = flush c k in
      (done ≡ true)
      × (c'.queue ≡ kept c.queue)
      × (c'.is_synchronous ≡ ends_synchronous c.queue)
      × (pipeline k' ≡ pipeline k ++ all_bytes (batch c.queue))
      × (stream c' k' ≡ stream c k)
stream-flush c k l h =
    let s = flush_loop_lem c.queue k h in
    simp (flush_parts c k l) (s.2, s.0, s.1, s.4, rw (s.4, s.0) (batch_then_kept k c.queue))

stream-send_kept :
    (c : ChannelImpl) (k : ConnectionImpl) (frame : Frame)
    → stream (record c { queue = c.queue ++ (copy frame ∷ []) }) k
      ≡ stream c k ++ (copied_buffer frame ∷ [])
unfolding copy
stream-send_kept c k frame =
    rw (all_bytes-append c.queue (copy frame ∷ []))
      (sym (append_assoc (pipeline k) (all_bytes c.queue) (copied_buffer frame ∷ [])))

send_passes :
    (c : ChannelImpl) (k : ConnectionImpl) (frame : Frame)
    → usable c ≡ true
    → c.linked ≡ true
    → waiting c ≡ false
    → (((send c k frame).2 ≡ (Connection.send k frame).1)
        × ((send c k frame).1 ≡ (Connection.send k frame).0)
        × ((send c k frame).0.queue ≡ c.queue))
unfolding send usable
send_passes c k frame u l w = ground arith

-- A usable channel puts each frame that it accepts behind all frames before it, whether it keeps the
-- frame or hands it over; a frame that is refused leaves no trace.
pub stream-send :
    (c : ChannelImpl) (k : ConnectionImpl) (frame : Frame)
    → usable c ≡ true
    → c.linked ≡ true
    → part_of_handshake frame ≡ false
    → let (c', k', accepted) = send c k frame in
      stream c' k' ≡ (if accepted then stream c k ++ (copied_buffer frame ∷ []) else stream c k)
stream-send c k frame u l p = elim (Bool-cases (waiting c)) [
  | inl w ↦ simp (waits c k frame u l w) (stream-send_kept c k frame)
  | inr w ↦
      let s = send_passes c k frame u l w in
      let t = pipeline-send k frame p in simp (s.0, s.1, s.2, no_queue c w, append-nil) t
]
