-- ===== src/Channel/Waiting.antt =====
-- The waiting state of a channel: `ChannelImpl::waiting` and the two `send` of src/channelimpl.cpp.
use amqp_cpp.Base.{
  ℕ, ◌≡◌, refl, ap, ◌∙◌, Bool, true, false, List, [], ◌∷◌, ◌++◌, map, append_assoc, append-nil,
  arith, ◌||◌,
}
use amqp_cpp.Frame.{Frame, method_frame, basic_method, synchronous}
use amqp_cpp.Frame.Basic.{nack}
use amqp_cpp.Field.BooleanSet.{from_bools}
use amqp_cpp.Connection.{ConnectionImpl, CopiedBuffer, copy, is_empty}
use amqp_cpp.Connection
use amqp_cpp.Channel.{ChannelImpl, usable, waiting, send, reject_message}

-- The program hands several frames to the channel, one after the other.
unfoldable pub send_all : ChannelImpl → ConnectionImpl → List Frame → ChannelImpl × ConnectionImpl
send_all c k [] = (c, k)
send_all c k (f ∷ fs) = let (c', k', sent) = send c k f in send_all c' k' fs

pub waits :
    (c : ChannelImpl) (k : ConnectionImpl) (f : Frame)
    → usable c ≡ true
    → c.linked ≡ true
    → waiting c ≡ true
    → send c k f ≡ (record c { queue = c.queue ++ (copy f ∷ []) }, k, true)
unfolding send usable
waits c k f u l w = ground arith

is_empty-append : (q : List CopiedBuffer) (b : CopiedBuffer) → is_empty (q ++ (b ∷ [])) ≡ false
is_empty-append [] b = refl
is_empty-append (x ∷ q) b = refl

or_true : (b : Bool) → (b || true) ≡ true
or_true true = refl
or_true false = refl

pub queue_waits :
    (c : ChannelImpl) (f : Frame) → waiting (record c { queue = c.queue ++ (copy f ∷ []) }) ≡ true
unfolding waiting
queue_waits c f = rw (is_empty-append c.queue (copy f), waiting) (or_true c.is_synchronous)

pub usable_keeps : (c d : ChannelImpl) → d.state ≡ c.state → usable c ≡ true → usable d ≡ true
unfolding usable
usable_keeps c d e u = ground arith

-- While a usable channel waits, every frame that it is given is kept in order and counts as sent, and
-- the connection sees none of them.
pub send_all-waiting :
    (fs : List Frame) (c : ChannelImpl) (k : ConnectionImpl)
    → usable c ≡ true
    → c.linked ≡ true
    → waiting c ≡ true
    → send_all c k fs ≡ (record c { queue = c.queue ++ map copy fs }, k)
unfolding send_all
send_all-waiting [] c k u l w = rw (append-nil c.queue)
send_all-waiting (f ∷ fs) c k u l w =
    let next : ChannelImpl = record c { queue = c.queue ++ (copy f ∷ []) } in
    rw (waits c k f u l w) (
      send_all-waiting fs next k (usable_keeps c next refl u) l (queue_waits c f)
      ∙ ap (λ q. (record c { queue = q }, k)) (append_assoc c.queue (copy f ∷ []) (map copy fs)))

pub no_queue : (c : ChannelImpl) → waiting c ≡ false → c.queue ≡ []
unfolding waiting
no_queue c w = ground arith

reject_sends :
    (c : ChannelImpl) (k k' : ConnectionImpl) (tag : ℕ) (requeue : Bool)
    → usable c ≡ true
    → c.linked ≡ true
    → waiting c ≡ false
    → Connection.send k
        (method_frame c.id (basic_method (nack tag (from_bools (true ∷ requeue ∷ [])))))
      ≡ (k', true)
    → reject_message c k tag true requeue ≡ (record c { is_synchronous = true }, k', true)
unfolding reject_message send usable synchronous
reject_sends c k k' tag requeue u l w e = ground arith

-- Nacking several messages at once on an idle channel, where the connection takes the frame, makes
-- the channel wait, although no answer to a nack exists: whatever frames follow are kept back, and
-- nothing more reaches the connection.
pub reject_multiple-blocks :
    (c : ChannelImpl) (k k' : ConnectionImpl) (tag : ℕ) (requeue : Bool) (fs : List Frame)
    → usable c ≡ true
    → c.linked ≡ true
    → waiting c ≡ false
    → Connection.send k
        (method_frame c.id (basic_method (nack tag (from_bools (true ∷ requeue ∷ [])))))
      ≡ (k', true)
    → let (c', after, sent) = reject_message c k tag true requeue in
      send_all c' after fs ≡ (record c { is_synchronous = true; queue = map copy fs }, k')
reject_multiple-blocks c k k' tag requeue fs u l w e =
    rw (reject_sends c k k' tag requeue u l w e) (
      send_all-waiting fs (record c { is_synchronous = true }) k' (usable_keeps c _ refl u) l
        (unfold waiting in refl)
      ∙ ap (λ q. (record c { is_synchronous = true; queue = q ++ map copy fs }, k')) (no_queue c w))
