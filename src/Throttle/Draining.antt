-- ===== src/Throttle/Draining.antt =====
-- `Throttle::flush` of src/throttle.cpp for every maximum, 0 included, which flushes all.
use amqp_cpp.Base.{
  ℕ, suc, ◌+◌, ◌<◌, ◌≤◌, ◌≡◌, ◌⊎◌, refl, ap, ◌∙◌, true, false, ◌&&◌, ltb, leb, ◌==◌, if◌then◌else◌,
  List, [], ◌∷◌, ◌++◌, length, arith, inl, inr, Bool-cases,
}
use amqp_cpp.Connection.{ConnectionImpl, CopiedBuffer}
use amqp_cpp.Channel.{ChannelImpl}
use amqp_cpp.Channel
use amqp_cpp.Throttle.{Throttle, insert, pass, next_message, drain, flush}

-- Buffers handed to the channel one after the other.
abbrev pub passed :
    List (ℕ × CopiedBuffer) → ChannelImpl × ConnectionImpl → ChannelImpl × ConnectionImpl
passed [] s = s
passed (b ∷ bs) s = let (c, k, accepted) = Channel.send_copy s.0 s.1 b.1 in passed bs (c, k)

-- The ids of the messages in the buffers, each where it begins, behind the message `last`.
abbrev pub begun : ℕ → List (ℕ × CopiedBuffer) → List ℕ
begun last [] = []
begun last (b ∷ bs) =
    let more = begun last bs in let rest = begun b.0 bs in if b.0 == last then more else b.0 ∷ rest

abbrev pub insert_all : List ℕ → List ℕ → List ℕ
insert_all [] ids = ids
insert_all (x ∷ xs) ids = insert_all xs (insert x ids)

-- What a flush hands over is the front of the queue, with its messages opened; all of it, or as many
-- messages as were asked for, up to the frame where the next one begins.
abbrev pub Flushed :
    ℕ → ℕ → List (ℕ × CopiedBuffer) → Throttle → Throttle × ℕ → List (ℕ × CopiedBuffer) → Type 0
Flushed max published q t r front =
    (q ≡ front ++ r.0.queue)
    × (passed front (t.implementation, t.connection) ≡ (r.0.implementation, r.0.connection))
    × (r.0.unconfirmed ≡ insert_all (begun t.last front) t.unconfirmed)
    × (r.1 ≡ published + length (begun t.last front))
    × (((r.0.queue ≡ []) × ((max ≡ 0) ⊎ (r.1 ≤ max))) ⊎ ((0 < max) × (r.1 ≡ max)))

room_for :
    (max published : ℕ)
    → (max ≡ 0) ⊎ (published ≤ max)
    → (ltb 0 max && leb max published) ≡ false
    → (max ≡ 0) ⊎ (suc published ≤ max)
room_for max published h e = ground arith

full_lem :
    (max published : ℕ)
    → (max ≡ 0) ⊎ (published ≤ max)
    → (ltb 0 max && leb max published) ≡ true
    → (0 < max) × (published ≡ max)
full_lem max published h e = ground arith

drain-Flushed :
    (q : List (ℕ × CopiedBuffer)) (max published : ℕ) (t : Throttle)
    → (max ≡ 0) ⊎ (published ≤ max)
    → (front : List (ℕ × CopiedBuffer)) × Flushed max published q t (drain max published q t) front
unfolding drain pass next_message
drain-Flushed [] max published t h = ([], (refl, refl, refl, omega arith, inl (refl, h)))
drain-Flushed (front ∷ q) max published t h = elim (Bool-cases (front.0 == t.last)) [
  | inl same ↦
      let (more, f) = drain-Flushed q max published (pass front.1 t) h in
      simp same (front ∷ more, (ap (◌∷◌ front) f.0, f.1, simp same f.2, simp same f.3, f.4))
  | inr new ↦ elim (Bool-cases (ltb 0 max && leb max published)) [
    | inl full ↦
        simp (new, full) ([], (refl, refl, refl, omega arith, inr (full_lem max published h full)))
    | inr room ↦
        let t' = pass front.1 (next_message front.0 t) in
        let (more, f) = drain-Flushed q max (suc published) t' (room_for max published h room) in
        let count = f.3 in
        simp (new, room)
          (
            front ∷ more,
            (ap (◌∷◌ front) f.0, f.1, simp new f.2, simp new (count ∙ omega arith), f.4),
          )
  ]
]

-- A flush hands the front of the queue to the channel, one frame after the other and nothing else, and
-- keeps the rest in order. It opens each message that begins in what it hands over, and returns how many
-- these are. Either it stops with exactly as many messages as were asked for, or the queue is empty, with
-- no more messages than that; asked for 0 it always empties the queue, and minds no limit.
pub flush-Flushed :
    (max : ℕ) (t : Throttle)
    → (front : List (ℕ × CopiedBuffer)) × (t.queue ≡ front ++ (flush max t).0.queue)
      × (passed front (t.implementation, t.connection)
          ≡ ((flush max t).0.implementation, (flush max t).0.connection))
      × ((flush max t).0.unconfirmed ≡ insert_all (begun t.last front) t.unconfirmed)
      × ((flush max t).1 ≡ length (begun t.last front))
      × ((((flush max t).0.queue ≡ []) × ((max ≡ 0) ⊎ ((flush max t).1 ≤ max)))
          ⊎ ((0 < max) × ((flush max t).1 ≡ max)))
unfolding flush
flush-Flushed max t =
    let (front, f) = drain-Flushed t.queue max 0 t (inr (omega arith)) in
    (front, f.0, f.1, f.2, f.3 ∙ omega arith, f.4)
