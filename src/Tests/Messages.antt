-- ===== src/Tests/Messages.antt =====
-- Runs of the models of src/channelimpl.cpp, src/connectionimpl.cpp and src/deferredreceiver.cpp.
use amqp_cpp.Base.{
  ℕ, zero, suc, ◌≡◌, ◌<◌, ◌^◌, refl, true, false, List, [], ◌∷◌, ◌++◌, length, take, length-append,
  length-take, inr, ◌∙◌, map, All, some, none, arith,
}
use amqp_cpp.Wire.{ok}
use amqp_cpp.Wire.Reads.{at}
use amqp_cpp.Field.{empty}
use amqp_cpp.Field.BooleanSet.{get, from_bools}
use amqp_cpp.MetaData.{no_properties}
use amqp_cpp.Frame.{
  Method, Frame, method_frame, body_frame, heartbeat_frame, basic_method, copied_buffer,
  synchronous,
}
use amqp_cpp.Frame.Basic
use amqp_cpp.Frame.Queue
use amqp_cpp.Field
use amqp_cpp.Wire
use amqp_cpp.Frame
use amqp_cpp.Frame.Basic.{deliver}
use amqp_cpp.Frame.Received.{ReceivedFrame, received_frame, read_frame, complete}
use amqp_cpp.Connection.{ConnectionImpl}
use amqp_cpp.Connection.Channels.{Slots, add, in_use, limit_reached, next16}
use amqp_cpp.Connection.Channels.Search.{add-fresh, add-endless}
use amqp_cpp.Connection.Parse.{Endpoint, parse}
use amqp_cpp.Connection.Parse.Frames.{all_bytes, Admitted, parse-frames_and_part}
use amqp_cpp.Channel.{push, max_payload, usable, waiting, succeeded, report_success}
use amqp_cpp.Channel.Publish.{Envelope, publish_frame, envelope_header, publish, chunk_loop, has}
use amqp_cpp.Channel.Publish.Frames.{
  chunks, send_while, message_frames, join, FitsLimit, publish-message_frames, publish-FitsLimit,
}
use amqp_cpp.Channel.Publish.Endless.{chunk_loop-endless}
use amqp_cpp.Channel.Operations.{fanout, nowait}
use amqp_cpp.Channel.Operations.Perform.{
  Request, declare_queue_request, declare_exchange_request, cancel_request, perform,
}
use amqp_cpp.Channel.Operations.Requests.{Fits}
use amqp_cpp.Channel.Operations.Peer.{request_of, honoured, parse-request}
use amqp_cpp.Channel.Operations.Perform.{method_of}
use amqp_cpp.Channel.Operations.Unanswered.{nowait-takes_answer}
use amqp_cpp.Receiver.{Receiver, receive_all}
use amqp_cpp.Receiver.RoundTrip.{told_of, receive_all-message}
use amqp_cpp.Tests.{open_connection, idle_channel, waiting_channel, ack_frame}

abbrev envelope : Envelope
envelope = record { properties = no_properties; body = 1 ∷ 2 ∷ 3 ∷ [] }

-- A limit that leaves two bytes of payload.
abbrev small_frames : ConnectionImpl
small_frames = record open_connection { max_frame = 10 }

publish-message_frames_example :
    publish idle_channel small_frames (101 ∷ []) (114 ∷ []) envelope 0
    ≡ some (
        send_while
          (message_frames 1 (max_payload small_frames) (101 ∷ []) (114 ∷ []) envelope 0)
          idle_channel
          small_frames)
unfolding max_payload
publish-message_frames_example =
    publish-message_frames idle_channel small_frames (101 ∷ []) (114 ∷ []) envelope 0 (omega arith)

publish-FitsLimit_example :
    (pieces : List (List ℕ)) × (publish idle_channel small_frames (101 ∷ []) (114 ∷ []) envelope 0
      ≡ some (
          send_while
            (publish_frame 1 (101 ∷ []) (114 ∷ []) 0
              ∷ envelope_header 1 envelope
              ∷ map (body_frame 1) pieces)
            idle_channel
            small_frames))
    × (join pieces ≡ 1 ∷ 2 ∷ 3 ∷ [])
    × All (λ b. 0 < length b) pieces
    × All (FitsLimit 10) (map (body_frame 1) pieces)
publish-FitsLimit_example =
    publish-FitsLimit idle_channel small_frames (101 ∷ []) (114 ∷ []) envelope 0 (omega arith)
      (omega arith)

abbrev tiny_frames : ConnectionImpl
tiny_frames = record open_connection { max_frame = 8 }

chunk_loop-endless_example :
    chunk_loop 100 (max_payload tiny_frames) (1 ∷ []) waiting_channel tiny_frames ≡ none
unfolding usable waiting
chunk_loop-endless_example =
    chunk_loop-endless 100 1 [] waiting_channel tiny_frames refl refl refl refl

abbrev consumer : Receiver
consumer = record {
  body_size = 0;
  pending = none;
  wants_message = true;
  delivery_tag = 0;
  redelivered = false;
  installed = false;
  events = [];
}

receive_all-message_example :
    let cut = chunks 3 2 (1 ∷ 2 ∷ 3 ∷ []) in
    receive_all consumer (
      method_frame 1 (basic_method (deliver (99 ∷ []) 7 1 (101 ∷ []) (114 ∷ [])))
      ∷ envelope_header 1 envelope
      ∷ map (body_frame 1) cut)
    ≡ record consumer {
      delivery_tag = 7;
      redelivered = get 1 0;
      events = told_of (101 ∷ []) (114 ∷ []) envelope 7 (get 1 0) cut;
    }
receive_all-message_example =
    receive_all-message consumer 1 2 7 1 (99 ∷ []) (101 ∷ []) (114 ∷ []) envelope refl (omega arith)
      (omega arith) (omega arith)

-- A connection that counts the frames it handles.
abbrev counter : Endpoint (ℕ × ℕ)
counter = record {
  is_closed = λ s. false;
  max_frame = λ s. 4096;
  process = λ f s. ((suc s.0, s.1), none);
  report_error = λ e s. s;
  set_expected = λ n s. (s.0, n);
  finish = λ s. s;
}

ack_frame-length : length (copied_buffer ack_frame) ≡ 21
unfolding copied_buffer Frame.fill Frame.fill_header Frame.fill_payload Frame.class_id
    Frame.method_id Frame.fill_arguments Basic.fill_arguments Basic.method_id Frame.channel
    Frame.frame_type Frame.payload_size Frame.arguments_size Basic.arguments_size Wire.add_uint8
    Wire.add_uint16 Wire.add_uint32 Wire.add_uint64 Wire.to_be
ack_frame-length = refl

ack_frame-Admitted : Admitted 4096 ack_frame
ack_frame-Admitted = (
  (omega arith, (omega arith, omega arith)),
  tt,
  omega (arith, ack_frame-length),
  inr (omega (arith, ack_frame-length), omega arith),
)

abbrev two_acks : List Frame
two_acks = ack_frame ∷ ack_frame ∷ []

two_acks-length : length (all_bytes two_acks ++ take 9 (copied_buffer ack_frame)) ≡ 51
two_acks-length =
    length-append (all_bytes two_acks) (take 9 (copied_buffer ack_frame))
    ∙ omega (
      arith,
      length-append (copied_buffer ack_frame) (copied_buffer ack_frame ++ []),
      length-append (copied_buffer ack_frame) [],
      length-take 9 (copied_buffer ack_frame),
      ack_frame-length,
    )

parse-frames_and_part_example :
    parse counter (all_bytes two_acks ++ take 9 (copied_buffer ack_frame)) (0, 0)
    ≡ some ((2, length (copied_buffer ack_frame)), length (all_bytes two_acks))
parse-frames_and_part_example =
    parse-frames_and_part counter two_acks ack_frame 9 (0, 0) refl
      (ack_frame-Admitted, refl, (ack_frame-Admitted, refl, tt)) ack_frame-Admitted (omega arith)
      (omega (arith, ack_frame-length)) (omega (arith, two_acks-length))

abbrev request : Request
request = declare_queue_request (113 ∷ []) 0 empty

abbrev request_frame : Frame
request_frame = method_frame 1 (method_of request)

request-Fits : Fits request
unfolding Field.entries_size
request-Fits = (omega arith, (tt, (omega arith, tt, tt)))

request_frame-length : length (copied_buffer request_frame) ≡ 21
unfolding method_of has copied_buffer Frame.fill Frame.fill_header Frame.fill_payload Frame.class_id
    Frame.method_id Frame.fill_arguments Queue.fill_arguments Queue.method_id Frame.channel
    Frame.frame_type Frame.payload_size Frame.arguments_size Queue.arguments_size Field.fill_entries
    Field.table_size Field.short_string_size Field.fill_table Field.fill_short_string
    Wire.add_string Wire.add_uint8 Wire.add_uint16 Wire.add_uint32 Wire.add_int16 Wire.to_be
    from_bools
request_frame-length = refl

parse-request_example :
    (m : Method) × (perform 3 idle_channel open_connection request
      ≡ push 3 idle_channel open_connection (method_frame 1 m))
    × (request_of m ≡ some (honoured request))
    × ((received : ReceivedFrame) × (received_frame (copied_buffer (method_frame 1 m) ++ (7 ∷ [])) 0
          ≡ ok received)
        × (complete received ≡ true)
        × (read_frame received received.position
            ≡ ok (method_frame 1 m, at (Frame.fill (method_frame 1 m)) (206 ∷ 7 ∷ []))))
parse-request_example =
    parse-request 3 idle_channel open_connection request (7 ∷ []) (omega arith) request-Fits
      (omega (arith, request_frame-length))
      (omega (arith, request_frame-length, length-append (copied_buffer request_frame) (7 ∷ [])))

abbrev three_channels : Slots
three_channels = record { next_free = 65535; max_channels = 0; ids = 65535 ∷ 1 ∷ 2 ∷ [] }

add-fresh_example :
    (id : ℕ) × (add 65536 three_channels
      ≡ some (record three_channels { ids = id ∷ three_channels.ids; next_free = next16 id }, id))
    × (0 < id)
    × (id < 2 ^ 16)
    × (in_use id three_channels.ids ≡ false)
unfolding limit_reached
add-fresh_example = add-fresh three_channels (omega arith) refl (omega arith)

-- The numbers from `n` down to 1.
unfoldable countdown : ℕ → List ℕ
countdown zero = []
countdown (suc n) = suc n ∷ countdown n

countdown-in_use : (n v : ℕ) → v < n → in_use (suc v) (countdown n) ≡ true
unfolding countdown in_use
countdown-in_use zero v h = elim h [ ]
countdown-in_use (suc n) v h = ground (arith, countdown-in_use n v)

abbrev no_id_left : Slots
no_id_left = record { next_free = 1; max_channels = 0; ids = countdown 65535 }

add-endless_example : add 1000 no_id_left ≡ none
add-endless_example = add-endless 1000 no_id_left (omega arith) refl (countdown-in_use 65535)

nowait-takes_answer_example :
    let declaration = declare_exchange_request (101 ∷ []) fanout nowait empty in
    let (c', k', sent) = perform 4 idle_channel open_connection declaration in
    let (c'', k'', sent') = perform 5 c' k' (cancel_request (99 ∷ [])) in
    let answered = (report_success c'' k'').0 in
    (synchronous (method_frame 1 (method_of declaration)) ≡ false)
    × (answered.reports ≡ succeeded 4 ∷ [])
    × (answered.deferred ≡ 5 ∷ [])
unfolding has
nowait-takes_answer_example =
    nowait-takes_answer 4 5 idle_channel open_connection (101 ∷ []) fanout nowait empty
      (cancel_request (99 ∷ [])) refl refl
