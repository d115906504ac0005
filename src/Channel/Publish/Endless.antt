-- ===== src/Channel/Publish/Endless.antt =====
-- The loop of `ChannelImpl::publish` where a body frame has no room for a byte.
use amqp_cpp.Base.{ℕ, zero, suc, ◌≡◌, refl, true, List, [], ◌∷◌, ◌++◌, none}
use amqp_cpp.Frame.{body_frame}
use amqp_cpp.Connection.{ConnectionImpl, copy}
use amqp_cpp.Channel.{ChannelImpl, usable, waiting, max_payload}
use amqp_cpp.Channel.Waiting.{waits, queue_waits, usable_keeps}
use amqp_cpp.Channel.Publish.{chunk_loop}
use amqp_cpp.Channel.Publish.Frames.{chunk_loop_step}

spins :
    (n : ℕ) (x : ℕ) (xs : List ℕ) (c : ChannelImpl) (k : ConnectionImpl)
    → usable c ≡ true
    → c.linked ≡ true
    → waiting c ≡ true
    → chunk_loop n 0 (x ∷ xs) c k ≡ none
spins zero x xs c k u l w = unfold chunk_loop in refl
spins (suc n) x xs c k u l w =
    let f = body_frame c.id [] in
    let next : ChannelImpl = record c { queue = c.queue ++ (copy f ∷ []) } in
    rw (chunk_loop_step n 0 x xs c k, waits c k f u l w)
      (spins n x xs next k (usable_keeps c next refl u) l (queue_waits c f))

-- A peer that negotiates frames of 8 bytes leaves no room for a body: on a channel that waits for an
-- answer, publishing the body of a message never ends, whatever fuel it is given.
pub chunk_loop-endless :
    (fuel x : ℕ) (xs : List ℕ) (c : ChannelImpl) (k : ConnectionImpl)
    → k.max_frame ≡ 8
    → usable c ≡ true
    → c.linked ≡ true
    → waiting c ≡ true
    → chunk_loop fuel (max_payload k) (x ∷ xs) c k ≡ none
unfolding max_payload
chunk_loop-endless fuel x xs c k e u l w = simp e (spins fuel x xs c k u l w)
