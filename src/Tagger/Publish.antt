-- ===== src/Tagger/Publish.antt =====
-- `Tagger::publish` of src/tagger.cpp against `ChannelImpl::publish`.
use mathlib.Core.Option
use amqp_cpp.Base.{
  ℕ, suc, ◌+◌, ◌%◌, ◌^◌, ◌<◌, ◌≡◌, refl, sym, ap, ◌∙◌, Bool, true, false, if◌then◌else◌, List, [],
  ◌∷◌, length, some, arith, Bool-cases, inl, inr,
}
use amqp_cpp.Connection.{ConnectionImpl}
use amqp_cpp.Channel.{ChannelImpl, send, usable, max_payload}
use amqp_cpp.Frame.{Frame}
use amqp_cpp.Channel.Publish.{
  Envelope, publish_frame, envelope_header, chunk_loop, publish_body, publish,
}
use amqp_cpp.Channel.Publish.Frames.{
  send_while, message_frames, publish-message_frames, send-keeps, accepts-linked,
}
use amqp_cpp.Tagger.{Tagger, tagged, publish_tagged}

send-usable : (c : ChannelImpl) (k : ConnectionImpl) (f : Frame) → usable (send c k f).0 ≡ usable c
unfolding send usable
send-usable c k f = ground arith

-- A channel with a connection publishes the body with the loop, also where it is empty.
body_lem :
    (body : List ℕ) (c : ChannelImpl) (k : ConnectionImpl)
    → c.linked ≡ true
    → publish_body body c k ≡ chunk_loop (suc (length body)) (max_payload k) body c k
unfolding publish_body
body_lem [] c k u = unfold chunk_loop in refl
body_lem (x ∷ xs) c k u = simp u refl

tagged_lem :
    (t : Tagger) (c : ChannelImpl) (k : ConnectionImpl) (sent : Bool)
    → tagged t (c, k, sent) ≡ (
      record t {
        current = if sent then (t.current + 1) % 2 ^ 64 else t.current;
        implementation = c;
        connection = k;
      },
      if sent then t.current else 0,
    )
unfolding tagged
tagged_lem t c k true = refl
tagged_lem t c k false = refl

-- The frames and the results are those of the channel.
channel_publish :
    (t : Tagger) (exchange routing_key : List ℕ) (envelope : Envelope) (flags : ℕ)
    → t.closing ≡ false
    → usable t.implementation ≡ true
    → publish_tagged t exchange routing_key envelope flags
      ≡ Option.map
          (tagged t)
          (publish t.implementation t.connection exchange routing_key envelope flags)
unfolding publish_tagged publish
channel_publish t exchange routing_key envelope flags o u =
    let c = t.implementation in
    let one = send c t.connection (publish_frame c.id exchange routing_key flags) in
    let two = send one.0 one.1 (envelope_header one.0.id envelope) in
    let still : usable two.0 ≡ true =
      send-usable one.0 one.1 _ ∙ send-usable c t.connection _ ∙ u in
    let linked : one.2 ≡ true → two.0.linked ≡ true = λ e.
      (send-keeps one.0 one.1 _).1
      ∙ (send-keeps c t.connection _).1
      ∙ accepts-linked c t.connection _ e in
    elim (Bool-cases one.2) [
      | inl first ↦ elim (Bool-cases two.2) [
        | inl second ↦
            simp (o, first, second, still)
              (ap (Option.map (tagged t)) (sym (body_lem envelope.body two.0 two.1 (linked first))))
        | inr refused ↦ simp (o, first, refused) refl
      ]
      | inr refused ↦ simp (o, refused) refl
    ]

-- Over a channel that is usable and whose body frames have room for a byte, a tagger that is not closing
-- sends the frames that the channel would, up to the first that is refused. Where all were sent it
-- returns the current tag, and the next message gets the next one, in 64 bits; where a frame was refused
-- it returns 0 and keeps the tag.
pub publish-tagged :
    (t : Tagger) (exchange routing_key : List ℕ) (envelope : Envelope) (flags : ℕ)
    → t.closing ≡ false
    → usable t.implementation ≡ true
    → 0 < max_payload t.connection
    → let c = t.implementation in
      let frames =
        message_frames c.id (max_payload t.connection) exchange routing_key envelope flags in
      let (c', k', sent) = send_while frames c t.connection in
      publish_tagged t exchange routing_key envelope flags
      ≡ some (
        record t {
          current = if sent then (t.current + 1) % 2 ^ 64 else t.current;
          implementation = c';
          connection = k';
        },
        if sent then t.current else 0,
      )
publish-tagged t exchange routing_key envelope flags o u m =
    let c = t.implementation in
    let frames =
      message_frames c.id (max_payload t.connection) exchange routing_key envelope flags in
    let r = send_while frames c t.connection in
    channel_publish t exchange routing_key envelope flags o u
    ∙ ap (Option.map (tagged t))
        (publish-message_frames c t.connection exchange routing_key envelope flags m)
    ∙ ap some (tagged_lem t r.0 r.1 r.2)
