-- ===== src/Throttle/Window.antt =====
-- The bound of src/throttle.cpp on the messages that were not confirmed.
use amqp_cpp.Base.{
  ℕ, suc, ◌+◌, ◌-◌, ◌<◌, ◌≤◌, ◌≡◌, ◌⊎◌, refl, Bool, true, false, not, ◌&&◌, ltb, leb, lt→ltb, ◌==◌,
  if◌then◌else◌, List, [], ◌∷◌, length, arith, inl, inr, ap, Bool-cases,
}
use amqp_cpp.Frame.{Frame}
use amqp_cpp.Connection.{CopiedBuffer}
use amqp_cpp.Throttle.{
  Throttle, insert, erase, erase_until, pass, next_message, drain, flush, on_ack, send,
}

length-insert : (id : ℕ) (xs : List ℕ) → length (insert id xs) ≤ suc (length xs)
unfolding insert
length-insert id [] = omega arith
length-insert id (x ∷ xs) = ground (arith, length-insert id xs)

length-erase : (id : ℕ) (xs : List ℕ) → length (erase id xs) ≤ length xs
unfolding erase
length-erase id [] = omega arith
length-erase id (x ∷ xs) = ground (arith, length-erase id xs)

length-erase_until : (id : ℕ) (xs : List ℕ) → length (erase_until id xs) ≤ length xs
unfolding erase_until
length-erase_until id [] = omega arith
length-erase_until id (x ∷ xs) = ground (arith, length-erase_until id xs)

reached : (max published : ℕ) → published ≤ max → leb max published ≡ true → published ≡ max
reached max published p h = ground arith

not_reached : (max published : ℕ) → leb max published ≡ false → suc published ≤ max
not_reached max published h = ground arith

-- The loop, from any point on.
drain_window :
    (q : List (ℕ × CopiedBuffer)) (max published : ℕ) (t : Throttle)
    → 0 < max
    → published ≤ max
    → length t.unconfirmed + max ≤ t.limit + published
    → (length (drain max published q t).0.unconfirmed ≤ t.limit)
      × (((drain max published q t).0.queue ≡ []) ⊎ ((drain max published q t).1 ≡ max))
unfolding drain pass next_message
drain_window [] max published t m p h = (omega arith, inl refl)
drain_window (front ∷ q) max published t m p h = elim (Bool-cases (front.0 == t.last)) [
  | inl same ↦ simp same (drain_window q max published (pass front.1 t) m p h)
  | inr new ↦ elim (Bool-cases (leb max published)) [
    | inl full ↦ simp (new, lt→ltb 0 max m, full) (omega arith, inr (reached max published p full))
    | inr room ↦
        let added = length-insert front.0 t.unconfirmed in
        let below = not_reached max published room in
        simp (new, lt→ltb 0 max m, room)
          (drain_window q max (suc published) (pass front.1 (next_message front.0 t)) m below
            (omega arith))
  ]
]

-- Flushing as many messages as there is room for keeps the throttle within its limit, and either
-- empties the queue or publishes exactly that many messages.
pub flush-window :
    (max : ℕ) (t : Throttle)
    → 0 < max
    → length t.unconfirmed + max ≤ t.limit
    → (length (flush max t).0.unconfirmed ≤ t.limit)
      × (((flush max t).0.queue ≡ []) ⊎ ((flush max t).1 ≡ max))
unfolding flush
flush-window max t m h = drain_window t.queue max 0 t m (omega arith) (omega arith)

left_over :
    (tag : ℕ) (multiple : Bool) (xs : List ℕ)
    → length (if multiple then erase_until tag xs else erase tag xs) ≤ length xs
left_over tag multiple xs = ground (arith, length-erase tag xs, length-erase_until tag xs)

after_confirm :
    (left : List ℕ) (t : Throttle)
    → length left ≤ t.limit
    → let t' : Throttle = record t { unconfirmed = left } in
      length
        (if ltb (length left) t.limit then (flush (t.limit - length left) t').0 else t').unconfirmed
      ≤ t.limit
after_confirm left t h = elim (Bool-cases (ltb (length left) t.limit)) [
  | inl room ↦
      simp room
        (flush-window (t.limit - length left) (record t { unconfirmed = left }) (ground arith)
          (omega arith)).0
  | inr none ↦ simp none h
]

-- A confirm, of one message or of all up to one, leaves at most as many messages open as the limit
-- allows, whatever it lets out of the queue.
pub on_ack-window :
    (tag : ℕ) (multiple : Bool) (t : Throttle)
    → length t.unconfirmed ≤ t.limit
    → length (on_ack tag multiple t).unconfirmed ≤ t.limit
unfolding on_ack
on_ack-window tag multiple t h =
    let kept = left_over tag multiple t.unconfirmed in
    after_confirm (if multiple then erase_until tag t.unconfirmed else erase tag t.unconfirmed) t
      (omega arith)

same_id : (a b : ℕ) → (a == b) ≡ true → a ≡ b
same_id a b h = ground arith

has_room : (a b limit n : ℕ) → (leb limit n && not (a == b)) ≡ false → (a == b) ≡ false → n < limit
has_room a b limit n h e = ground arith

insert_last :
    (id last limit : ℕ) (xs : List ℕ)
    → length xs ≤ limit
    → (insert last xs ≡ xs) ⊎ (length xs < limit)
    → (leb limit (length xs) && not (last == id)) ≡ false
    → length (insert id xs) ≤ limit
insert_last id last limit xs h (inr room) e = let added = length-insert id xs in omega arith
insert_last id last limit xs h (inl o) e =
    let added = length-insert id xs in
    let same = ap length o in
    elim (Bool-cases (last == id)) [
      | inl e' ↦ let eq = ap (λ i. length (insert i xs)) (same_id last id e') in omega arith
      | inr e' ↦ let room = has_room last id limit (length xs) e e' in omega arith
    ]

-- Sending a frame keeps the throttle within its limit, where the message sent last is still open or
-- there is room for one more.
pub send-window :
    (id : ℕ) (frame : Frame) (t : Throttle)
    → length t.unconfirmed ≤ t.limit
    → (insert t.last t.unconfirmed ≡ t.unconfirmed) ⊎ (length t.unconfirmed < t.limit)
    → length (send id frame t).0.unconfirmed ≤ t.limit
unfolding send
send-window id frame t h o = ground (arith, insert_last id t.last t.limit t.unconfirmed h o)
