-- ===== src/Frame/Parse.antt =====
-- Frames as they are written, read by src/receivedframe.cpp.
use mathlib.Core.Path.{subst}
use native.Mathlib.Nat.{mod-eq_of_lt}
use amqp_cpp.Base.{
  ℕ, ◌+◌, ◌^◌, ◌<◌, ◌≤◌, ◌≡◌, refl, sym, ap, ap₂, ◌∙◌, ◌⊎◌, true, false, List, [], ◌∷◌, ◌++◌,
  length, length-append, append_assoc, arith, ltb,
}
use amqp_cpp.Wire.{InBuffer, ok, to_be, add_uint8, add_uint16, add_string, next_data}
use amqp_cpp.Wire.Reads.{Reads, Reads-pure, Reads-bind, Reads-map, Reads-next_data, at}
use amqp_cpp.Wire.Primitives.{Reads-uint8, Reads-uint16, Reads-uint32, Reads-uint64}
use amqp_cpp.MetaData
use amqp_cpp.Frame.{
  Frame, Method, method_frame, header_frame, body_frame, heartbeat_frame, class_id, method_id,
  fill_arguments, frame_type, channel, payload_size, fill_payload, fill_header, fill, copied_buffer,
  connection_method, channel_method, exchange_method, queue_method, basic_method, confirm_method,
  transaction_method,
}
use amqp_cpp.Frame
use amqp_cpp.Frame.Size.{
  IsValid, IsValidFrame, IsWrittenFrame, payload_size-length, length-fill_header,
  length-copied_parts,
}
use amqp_cpp.Frame.Received.{
  ReceivedFrame, received_frame, read_header, check_frame, complete, total_size, byte, read_method,
  read_frame,
}

Reads-method :
    (m : Method)
    → IsValid m
    → Reads read_method
        (add_uint16 (class_id m) ++ (add_uint16 (method_id m) ++ fill_arguments m))
        m
unfolding read_method class_id method_id fill_arguments
Reads-method (connection_method m) v =
    Reads-bind _ (Reads-uint16 10 (omega arith))
      (Reads-map connection_method (Frame.Connection.RoundTrip.Reads-read_method m v))
Reads-method (channel_method m) v =
    Reads-bind _ (Reads-uint16 20 (omega arith))
      (Reads-map channel_method (Frame.Channel.RoundTrip.Reads-read_method m v))
Reads-method (exchange_method m) v =
    Reads-bind _ (Reads-uint16 40 (omega arith))
      (Reads-map exchange_method (Frame.Exchange.RoundTrip.Reads-read_method m v))
Reads-method (queue_method m) v =
    Reads-bind _ (Reads-uint16 50 (omega arith))
      (Reads-map queue_method (Frame.Queue.RoundTrip.Reads-read_method m v))
Reads-method (basic_method m) v =
    Reads-bind _ (Reads-uint16 60 (omega arith))
      (Reads-map basic_method (Frame.Basic.RoundTrip.Reads-read_method m v))
Reads-method (confirm_method m) v =
    Reads-bind _ (Reads-uint16 85 (omega arith))
      (Reads-map confirm_method (Frame.Confirm.RoundTrip.Reads-read_method m v))
Reads-method (transaction_method m) v =
    Reads-bind _ (Reads-uint16 90 (omega arith))
      (Reads-map transaction_method (Frame.Transaction.RoundTrip.Reads-read_method m v))

-- The object that the constructor makes from the bytes of a frame.
abbrev pub received : Frame → InBuffer → ReceivedFrame
received f b = record {
  position = b;
  type_number = frame_type f;
  channel = channel f;
  payload_size = payload_size f;
}

Reads-body :
    (id : ℕ) (payload : List ℕ)
    → length (fill_payload (body_frame id payload)) ≡ payload_size (body_frame id payload)
    → Reads (next_data (payload_size (body_frame id payload))) (add_string payload) payload
unfolding fill_payload payload_size add_string
Reads-body id payload e =
    subst (λ n. Reads (next_data n) payload payload) e (Reads-next_data payload (omega arith))

Reads-frame :
    (f : Frame) (b : InBuffer)
    → IsValidFrame f
    → length (fill_payload f) ≡ payload_size f
    → Reads (read_frame (received f b)) (fill_payload f) f
unfolding read_frame frame_type channel fill_payload
Reads-frame (method_frame id m) b v e = Reads-map (method_frame id) (Reads-method m v.1)
Reads-frame (header_frame id weight body_size properties) b v e =
    Reads-bind _ (Reads-uint16 60 (omega arith)) (
      Reads-bind _ (Reads-uint16 weight v.1) (
        Reads-bind _ (Reads-uint64 body_size v.2) (
          Reads-map (header_frame id weight body_size)
            (MetaData.RoundTrip.Reads-read_meta_data properties v.3))))
Reads-frame (body_frame id payload) b v e = Reads-map (body_frame id) (Reads-body id payload e)
Reads-frame (heartbeat_frame id) b v e = Reads-pure (heartbeat_frame id)

frame_type-lt : (f : Frame) → frame_type f < 2 ^ 8
unfolding frame_type
frame_type-lt (heartbeat_frame id) = omega arith
frame_type-lt f = omega arith

pub channel-lt : (f : Frame) → IsValidFrame f → channel f < 2 ^ 16
unfolding channel
channel-lt (method_frame id m) v = v.0
channel-lt (header_frame id weight body_size properties) v = v.0
channel-lt (body_frame id payload) v = v
channel-lt (heartbeat_frame id) v = v

pub Reads-header :
    (f : Frame)
    → channel f < 2 ^ 16
    → payload_size f < 2 ^ 32
    → Reads read_header (fill_header f) (frame_type f, channel f, payload_size f)
unfolding read_header fill_header
Reads-header f c p = Reads-bind _ (Reads-uint8 (frame_type f) (frame_type-lt f)) (
    Reads-bind _ (Reads-uint16 (channel f) c) (
      Reads-map (λ payload_size. (frame_type f, channel f, payload_size))
        (Reads-uint32 (payload_size f) p)))

byte-append : (xs : List ℕ) (b : ℕ) (ys : List ℕ) → byte (xs ++ (b ∷ ys)) (length xs) ≡ b
unfolding byte
byte-append [] b ys = refl
byte-append (x ∷ xs) b ys = byte-append xs b ys

-- The bytes of a frame and of what follows it, cut where the parser stands after the header.
abbrev pub bytes_of : Frame → List ℕ → List ℕ
bytes_of f rest = fill_header f ++ (fill_payload f ++ (206 ∷ rest))

pub copied-bytes : (f : Frame) (rest : List ℕ) → copied_buffer f ++ rest ≡ bytes_of f rest
unfolding copied_buffer fill add_uint8 to_be
copied-bytes f rest =
    append_assoc (fill_header f ++ fill_payload f) (206 ∷ []) rest
    ∙ append_assoc (fill_header f) (fill_payload f) (206 ∷ rest)

-- A limit that the frame keeps: none, or one in the range of its type that is not below its size.
abbrev pub WithinLimit : ℕ → ℕ → Type 0
WithinLimit max size = (max ≡ 0) ⊎ ((size ≤ max) × (max < 2 ^ 32))

check-passes :
    (max : ℕ) (r : ReceivedFrame)
    → WithinLimit max (r.payload_size + 8)
    → r.payload_size + 8 < 2 ^ 32
    → byte r.position.buffer (r.payload_size + 7) ≡ 206
    → check_frame max r ≡ ok r
unfolding check_frame
check-passes max r w h e = ground (
  arith,
  e,
  ap (byte r.position.buffer) (mod-eq_of_lt {n = r.payload_size + 7} {m = 2 ^ 32} (omega arith)),
)

byte-end :
    (f : Frame) (rest : List ℕ)
    → length (fill_payload f) ≡ payload_size f
    → byte (bytes_of f rest) (payload_size f + 7) ≡ 206
byte-end f rest e =
    ap₂ byte (sym (append_assoc (fill_header f) (fill_payload f) (206 ∷ rest)))
      (omega (arith, length-append (fill_header f) (fill_payload f), length-fill_header f))
    ∙ byte-append (fill_header f ++ fill_payload f) 206 rest

-- The frame that stands behind `front` bytes of the buffer.
parse-bytes :
    (f : Frame) (rest : List ℕ) (max : ℕ)
    → IsValidFrame f
    → IsWrittenFrame f
    → length (copied_buffer f) < 2 ^ 32
    → length (bytes_of f rest) < 2 ^ 64
    → WithinLimit max (length (copied_buffer f))
    → received_frame (bytes_of f rest) max
      ≡ ok (received f (at (fill_header f) (fill_payload f ++ (206 ∷ rest))))
unfolding received_frame
parse-bytes f rest max v w b l m =
    rw
      (
        long_enough,
        (Reads-header f (channel-lt f v) (omega (arith, sizes))).run []
            (fill_payload f ++ (206 ∷ rest)) l,
        received_frame,
      )
      (check-passes max (received f (at (fill_header f) (fill_payload f ++ (206 ∷ rest))))
        (subst (WithinLimit max) sizes m) (omega (arith, sizes, b))
        (byte-end f rest (payload_size-length f v w b)))
  where
    sizes : length (copied_buffer f) ≡ payload_size f + 8
    sizes = omega (arith, payload_size-length f v w b, length-copied_parts f)

    long_enough : ltb (length (bytes_of f rest)) 7 ≡ false
    long_enough = ground (
      arith,
      length-append (fill_header f) (fill_payload f ++ (206 ∷ rest)),
      length-fill_header f,
    )

-- For a frame whose values its class can hold, written within the limit on frames and followed by
-- anything, in a buffer that a `size_t` can index: the constructor accepts it as complete, with the
-- size of what was written, and the class that its ids select reads the frame that was written, up
-- to the end byte.
pub parse-copied_buffer :
    (f : Frame) (rest : List ℕ) (max : ℕ)
    → IsValidFrame f
    → IsWrittenFrame f
    → length (copied_buffer f) < 2 ^ 32
    → length (copied_buffer f ++ rest) < 2 ^ 64
    → WithinLimit max (length (copied_buffer f))
    → (r : ReceivedFrame) × (received_frame (copied_buffer f ++ rest) max ≡ ok r)
      × (complete r ≡ true)
      × (total_size r ≡ length (copied_buffer f))
      × (read_frame r r.position ≡ ok (f, at (fill f) (206 ∷ rest)))
unfolding complete total_size fill
parse-copied_buffer f rest max v w b l m = rw (copied-bytes f rest) (
  received f (at (fill_header f) (fill_payload f ++ (206 ∷ rest))),
  parse-bytes f rest max v w b bound m,
  ground (
    arith,
    sizes,
    length-append (fill_header f) (fill_payload f ++ (206 ∷ rest)),
    length-append (fill_payload f) (206 ∷ rest),
    length-fill_header f,
    payload_size-length f v w b,
  ),
  omega (arith, sizes),
  (Reads-frame f _ v (payload_size-length f v w b)).run (fill_header f) (206 ∷ rest) bound,
)
  where
    bound : length (bytes_of f rest) < 2 ^ 64
    bound = rw (copied-bytes f rest) at l

    sizes : length (copied_buffer f) ≡ payload_size f + 8
    sizes = omega (arith, payload_size-length f v w b, length-copied_parts f)
