-- ===== src/Tests/Channels.antt =====
-- Runs of the models of src/channelimpl.cpp and src/throttle.cpp.
use amqp_cpp.Base.{◌≡◌, ◌<◌, ◌≤◌, ◌⊎◌, refl, false, List, [], ◌∷◌, ◌++◌, length, map, ℕ}
use amqp_cpp.Connection.{ConnectionImpl, CopiedBuffer}
use amqp_cpp.Channel
use amqp_cpp.Channel.{
  ChannelImpl, Report, failed, channel_failed, push, report_error, report_closed, told_at_once,
  waiting, send,
}
use amqp_cpp.Channel.Answers.{
  Sublist, told, ledger, next, operation, detached, closed_by_peer, finished, ledger-Steps,
}
use amqp_cpp.Channel.Failure.{report_error-final}
use amqp_cpp.Throttle
use amqp_cpp.Throttle.{Throttle}
use amqp_cpp.Throttle.Draining.{passed, begun, insert_all, flush-Flushed}
use amqp_cpp.Tests.{
  open_connection, idle_channel, waiting_channel, ack_frame, declare_frame, full_throttle,
}

-- An operation that is sent, the loss of the connection, an operation that is not sent, and the closing.
abbrev one : ChannelImpl × ConnectionImpl
one = let (c, k, sent) = push 4 idle_channel open_connection declare_frame in (Channel.detach c, k)

abbrev two : ChannelImpl × ConnectionImpl
two = let (c, k, sent) = push 5 one.0 one.1 declare_frame in report_closed c k

ledger-Steps_example :
    (ledger two.0 ≡ ledger idle_channel ++ (4 ∷ 5 ∷ []))
    × Sublist
        (map told (
          told_at_once 4 (push 4 idle_channel open_connection declare_frame).2
          ++ (told_at_once 5 (push 5 one.0 one.1 declare_frame).2 ++ [])))
        (4 ∷ 5 ∷ [])
ledger-Steps_example = ledger-Steps (
    next (operation {c = idle_channel} {k = open_connection} 4 declare_frame)
      (next detached (next (operation 5 declare_frame) (next closed_by_peer finished))))

abbrev asking_channel : ChannelImpl
asking_channel = record waiting_channel { deferred = 7 ∷ 8 ∷ 9 ∷ [] }

-- After the error an operation is started all the same.
abbrev broken_channel : ChannelImpl × ConnectionImpl
broken_channel =
    let (c, k, sent) = push 10 (report_error asking_channel) open_connection declare_frame in (c, k)

report_error-final_example :
    ((report_error asking_channel).reports ≡ failed 7 ∷ channel_failed 8 ∷ channel_failed 9 ∷ [])
    × (broken_channel.0.state ≡ Channel.closed)
    × (broken_channel.0.queue ≡ [])
    × (waiting broken_channel.0 ≡ false)
    × (send broken_channel.0 broken_channel.1 ack_frame
        ≡ (broken_channel.0, broken_channel.1, false))
report_error-final_example =
    report_error-final asking_channel open_connection 7 (8 ∷ 9 ∷ []) ack_frame refl
      (next (operation 10 declare_frame) finished)

abbrev left_channel : ChannelImpl × ConnectionImpl
left_channel =
    let (c, k) = report_closed asking_channel open_connection in
    let (c', k', sent) = push 10 c k declare_frame in (c', k')

flush-Flushed_example :
    (front : List (ℕ × CopiedBuffer)) × (full_throttle.queue
      ≡ front ++ (Throttle.flush 0 full_throttle).0.queue)
    × (passed front (idle_channel, open_connection) ≡ (
      (Throttle.flush 0 full_throttle).0.implementation,
      (Throttle.flush 0 full_throttle).0.connection,
    ))
    × ((Throttle.flush 0 full_throttle).0.unconfirmed ≡ insert_all (begun 1 front) (1 ∷ []))
    × ((Throttle.flush 0 full_throttle).1 ≡ length (begun 1 front))
    × ((((Throttle.flush 0 full_throttle).0.queue ≡ [])
          × (◌≡◌ {A = ℕ} 0 0 ⊎ ((Throttle.flush 0 full_throttle).1 ≤ 0)))
        ⊎ (◌<◌ 0 0 × ((Throttle.flush 0 full_throttle).1 ≡ 0)))
flush-Flushed_example = flush-Flushed 0 full_throttle
