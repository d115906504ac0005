-- ===== src/Throttle.antt =====
-- include/amqpcpp/throttle.h and src/throttle.cpp: publishing with a bound on the messages that were
-- not confirmed. The channel is the one of `Channel`. What `Tagger::onAck` and `Tagger::onNack` do once
-- the throttle is being closed is left out.
pub mod Window
pub mod Draining
use amqp_cpp.Base.{
  ℕ, zero, suc, ◌-◌, Bool, true, false, not, ◌&&◌, ◌||◌, ltb, leb, ◌==◌, if◌then◌else◌, List, [],
  ◌∷◌, ◌++◌, length,
}
use amqp_cpp.Frame.{Frame}
use amqp_cpp.Connection.{ConnectionImpl, CopiedBuffer, copy, is_empty}
use amqp_cpp.Channel.{ChannelImpl}
use amqp_cpp.Channel

-- `unconfirmed` (`_open`) is the set of the ids of messages that wait for a confirm, in order, and `connection` is what
-- the implementation sends over.
pub record Throttle : Type 0 where
  pub last : ℕ
  pub limit : ℕ
  pub queue : List (ℕ × CopiedBuffer)
  pub unconfirmed : List ℕ
  pub implementation : ChannelImpl
  pub connection : ConnectionImpl

-- `std::set` of numbers: `insert`, `erase`, and `erase` up to `upper_bound`.
unfoldable pub insert : ℕ → List ℕ → List ℕ
insert id [] = id ∷ []
insert id (x ∷ xs) =
    let rest = insert id xs in
    if ltb id x then id ∷ x ∷ xs else (if ltb x id then x ∷ rest else x ∷ xs)

unfoldable pub erase : ℕ → List ℕ → List ℕ
erase id [] = []
erase id (x ∷ xs) = let rest = erase id xs in if id == x then xs else x ∷ rest

unfoldable pub erase_until : ℕ → List ℕ → List ℕ
erase_until id [] = []
erase_until id (x ∷ xs) = let rest = erase_until id xs in if ltb id x then x ∷ xs else rest

-- `_implementation->send(CopiedBuffer &&)`, whose result is not looked at.
unfoldable pub pass : CopiedBuffer → Throttle → Throttle
pass buffer t =
    let (c, k, accepted) = Channel.send_copy t.implementation t.connection buffer in
    record t { implementation = c; connection = k }

unfoldable pub next_message : ℕ → Throttle → Throttle
next_message id t = record t { last = id; unconfirmed = insert id t.unconfirmed }

-- The loop of `flush`, over the queue, with the number of messages that were published.
unfoldable pub drain : ℕ → ℕ → List (ℕ × CopiedBuffer) → Throttle → Throttle × ℕ
drain max published [] t = (record t { queue = [] }, published)
drain max published (front ∷ q) t =
    let same = front.0 == t.last in
    let t' = if same then t else next_message front.0 t in
    let rest = drain max (if same then published else suc published) q (pass front.1 t') in
    if not same && (ltb 0 max && leb max published)
    then (record t { queue = front ∷ q }, published)
    else rest

unfoldable pub flush : ℕ → Throttle → Throttle × ℕ
unfolding drain
flush max t = drain max 0 t.queue t

-- `Throttle::onAck` and `Throttle::onNack`, which are the same.
unfoldable pub on_ack : ℕ → Bool → Throttle → Throttle
unfolding flush
on_ack tag multiple t =
    let left = if multiple then erase_until tag t.unconfirmed else erase tag t.unconfirmed in
    let t' : Throttle = record t { unconfirmed = left } in
    if ltb (length left) t.limit then (flush (t.limit - length left) t').0 else t'

-- `Throttle::send`.
unfoldable pub send : ℕ → Frame → Throttle → Throttle × Bool
unfolding copy
send id frame t =
    if not (is_empty t.queue) || (leb t.limit (length t.unconfirmed) && not (t.last == id))
    then (record t { queue = t.queue ++ ((id, copy frame) ∷ []) }, true)
    else (let (c, k, accepted) = Channel.send t.implementation t.connection frame in
        (
          record t {
            last = id;
            unconfirmed = insert id t.unconfirmed;
            implementation = c;
            connection = k;
          },
          accepted,
        ))

-- `Throttle::reportError`, before the base class is told.
unfoldable pub report_error : Throttle → Throttle
report_error t = record t { last = 0; queue = []; unconfirmed = [] }
