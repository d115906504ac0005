-- ===== src/Tests/Confirms.antt =====
-- Runs of the models of include/amqpcpp/reliable.h and src/tagger.cpp.
use amqp_cpp.Base.{some, if◌then◌else◌, false, refl, ◌≡◌, true, List, [], ◌∷◌, ◌++◌, map, arith}
use amqp_cpp.Reliable.{Reliable, Told, acked, nacked, confirm, on_ack, publish}
use amqp_cpp.Reliable.Confirms.{covered, uncovered, confirm-covered, on_ack-unpublished}
use amqp_cpp.MetaData.{no_properties}
use amqp_cpp.Channel.{usable, max_payload}
use amqp_cpp.Channel.Publish.Frames.{send_while, message_frames}
use amqp_cpp.Channel.Publish.{Envelope}
use amqp_cpp.Tagger.{Tagger, publish_tagged}
use amqp_cpp.Tagger.Publish.{publish-tagged}
use amqp_cpp.Tests.{open_connection, idle_channel}

abbrev three_open : Reliable
three_open = record { handlers = (1, 10) ∷ (2, 20) ∷ (4, 40) ∷ []; reports = [] }

confirm-covered_example :
    ((confirm nacked 2 true three_open).handlers ≡ uncovered 2 true three_open.handlers)
    × ((confirm nacked 2 true three_open).reports
        ≡ three_open.reports ++ map (λ h. nacked h.1) (covered 2 true three_open.handlers))
confirm-covered_example =
    confirm-covered nacked 2 true three_open
      ((omega arith, (omega arith, tt)), ((omega arith, tt), (tt, tt)))

on_ack-unpublished_example :
    (x : List Told) × ((on_ack 4 true (publish 0 50 three_open)).reports ≡ [] ++ (acked 50 ∷ x))
on_ack-unpublished_example = on_ack-unpublished 50 4 three_open

abbrev tagger : Tagger
tagger = record {
  current = 5;
  closing = false;
  implementation = idle_channel;
  connection = open_connection;
}

abbrev small_message : Envelope
small_message = record { properties = no_properties; body = 1 ∷ 2 ∷ [] }

publish-tagged_example :
    let frames =
      message_frames 1 (max_payload open_connection) (101 ∷ []) (114 ∷ []) small_message 0 in
    let (c', k', sent) = send_while frames idle_channel open_connection in
    publish_tagged tagger (101 ∷ []) (114 ∷ []) small_message 0
    ≡ some (
      record tagger { current = if sent then 6 else 5; implementation = c'; connection = k' },
      if sent then 5 else 0,
    )
unfolding usable
publish-tagged_example =
    publish-tagged tagger (101 ∷ []) (114 ∷ []) small_message 0 refl refl
      (unfold max_payload in omega arith)
