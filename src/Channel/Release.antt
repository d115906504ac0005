-- ===== src/Channel/Release.antt =====
-- Frames that a channel keeps back while it waits, and the answer that lets them out: `send`, `flush` and
-- `reportSuccess` of src/channelimpl.cpp and include/amqpcpp/channelimpl.h.
use amqp_cpp.Base.{Bool, true, ◌&&◌, List, [], ◌∷◌}
use amqp_cpp.Frame.{Frame}
use amqp_cpp.Connection.{ConnectionImpl}
use amqp_cpp.Channel.{ChannelImpl, send}

-- Whether each of the frames was accepted.
unfoldable pub all_sent : ChannelImpl → ConnectionImpl → List Frame → Bool
all_sent c k [] = true
all_sent c k (f ∷ fs) =
    let (c', k', sent) = send c k f in let rest = all_sent c' k' fs in sent && rest
