-- ===== src/Tagger.antt =====
-- src/tagger.cpp: publishing over a channel in confirm mode, with a delivery tag for each message. The
-- frames go to the channel, as in `Tagger::send`; the classes that send otherwise are not this one. The
-- loop over the body is that of `Channel.Publish`, with its fuel.
pub mod Publish
use mathlib.Core.Option
use amqp_cpp.Base.{
  ℕ, suc, ◌+◌, ◌%◌, ◌^◌, Bool, true, false, not, if◌then◌else◌, List, length, Option, some,
}
use amqp_cpp.Connection.{ConnectionImpl}
use amqp_cpp.Channel.{ChannelImpl, Result, send, usable, max_payload, close_channel}
use amqp_cpp.Channel.Publish.{Envelope, publish_frame, envelope_header, chunk_loop}

-- `closing` tells that `close` was called; `current` is the tag of the next message.
pub record Tagger : Type 0 where
  pub current : ℕ
  pub closing : Bool
  pub implementation : ChannelImpl
  pub connection : ConnectionImpl

-- What `publish` returns: the tag where all was sent, which is then taken, and 0 otherwise.
unfoldable pub tagged : Tagger → Result → Tagger × ℕ
tagged t (c, k, sent) =
    let t' : Tagger = record t { implementation = c; connection = k } in
    if sent then (record t' { current = (t.current + 1) % 2 ^ 64 }, t.current) else (t', 0)

unfoldable pub publish_tagged : Tagger → List ℕ → List ℕ → Envelope → ℕ → Option (Tagger × ℕ)
unfolding tagged send usable chunk_loop max_payload
publish_tagged t exchange routing_key envelope flags =
    let c = t.implementation in
    let (c', k', sent) = send c t.connection (publish_frame c.id exchange routing_key flags) in
    let (c'', k'', sent') = send c' k' (envelope_header c'.id envelope) in
    let body = chunk_loop (suc (length envelope.body)) (max_payload k'') envelope.body c'' k'' in
    if t.closing
    then some (t, 0)
    else if not sent
    then some (tagged t (c', k', false))
    else if not sent'
    then some (tagged t (c'', k'', false))
    else if not (usable c'')
    then some (tagged t (c'', k'', false))
    else Option.map (tagged t) body

-- `reportError`: the tags start again.
unfoldable pub reset_tags : Tagger → Tagger
reset_tags t = record t { current = 1 }

-- The channel is closed, with a deferred object of the number `d`.
unfoldable pub close_implementation : ℕ → Tagger → Tagger
unfolding close_channel
close_implementation d t =
    let (c, k, sent) = close_channel d t.implementation t.connection in
    record t { implementation = c; connection = k }

-- `close`; no message of this class counts as unacknowledged.
unfoldable pub close_tagger : ℕ → Tagger → Tagger
unfolding close_implementation
close_tagger d t = if t.closing then t else close_implementation d (record t { closing = true })

-- `onAck` and `onNack`.
unfoldable pub confirmed : ℕ → Tagger → Tagger
unfolding close_implementation
confirmed d t = if not t.closing then t else close_implementation d t
