-- ===== src/PassthroughBuffer/Chunks.antt =====
-- What src/passthroughbuffer.h hands to the handler, against what was written.
use amqp_cpp.Base.{
  ℕ, ◌+◌, ◌≤◌, ◌<◌, ◌≡◌, refl, sym, ap, ◌∙◌, Bool, true, false, ◌&&◌, ltb, tests, ltb→lt, lt→ltb,
  if◌then◌else◌, List, [], ◌∷◌, ◌++◌, length, All, All-append, append_assoc, append-nil,
  length-append, arith, inl, inr, Bool-cases,
}
use amqp_cpp.Channel.Publish.Frames.{join, IsPiece}
use amqp_cpp.PassthroughBuffer.{
  PassthroughBuffer, capacity, flush, make_room, append, append_all, destruct, pass_through,
}

-- Everything that was written, in order.
abbrev pub written : PassthroughBuffer → List ℕ
written b = join b.sent ++ b.pending

-- What was sent is not empty nor above the limit, and what waits is within the capacity.
abbrev pub IsBounded : ℕ → PassthroughBuffer → Type 0
IsBounded limit b = All (IsPiece limit) b.sent × (length b.pending ≤ capacity)

join-snoc : (bs : List (List ℕ)) (b : List ℕ) → join (bs ++ (b ∷ [])) ≡ join bs ++ b
join-snoc [] b = append-nil b
join-snoc (x ∷ xs) b = ap (λ r. x ++ r) (join-snoc xs b) ∙ sym (append_assoc x (join xs) b)

written-flush : (b : PassthroughBuffer) → written (flush b) ≡ written b
unfolding flush
written-flush b = append-nil (join (b.sent ++ (b.pending ∷ []))) ∙ join-snoc b.sent b.pending

written-make_room : (n : ℕ) (b : PassthroughBuffer) → written (make_room n b) ≡ written b
unfolding make_room
written-make_room n b = by_test (ltb 0 (length b.pending) && ltb capacity (length b.pending + n))
  where
    by_test : (t : Bool) → written (if t then flush b else b) ≡ written b
    by_test true = written-flush b
    by_test false = refl

written-destruct : (b : PassthroughBuffer) → written (destruct b) ≡ written b
unfolding destruct
written-destruct b = by_test (ltb 0 (length b.pending))
  where
    by_test : (t : Bool) → written (if t then flush b else b) ≡ written b
    by_test true = written-flush b
    by_test false = refl

-- A long piece goes around the buffer, which is empty then.
emptied :
    (n : ℕ) (p : List ℕ) (s : List (List ℕ))
    → capacity < n
    → (make_room n (record { pending = p; sent = s })).pending ≡ []
unfolding make_room flush
emptied n [] s h = refl
emptied n (x ∷ xs) s h =
    let full : ltb capacity (length (x ∷ xs) + n) ≡ true = lt→ltb _ _ (omega arith) in
    let some_left : ltb 0 (length (x ∷ xs)) ≡ true = lt→ltb _ _ (omega arith) in
    simp (some_left, full) refl

-- A short one is copied behind what is there.
room_lem :
    (n : ℕ) (p : List ℕ) (s : List (List ℕ))
    → n ≤ capacity
    → length p ≤ capacity
    → length (make_room n (record { pending = p; sent = s })).pending + n ≤ capacity
unfolding make_room flush
room_lem n [] s h k = omega arith
room_lem n (x ∷ xs) s h k = ground arith

written-append :
    (piece : List ℕ) (b : PassthroughBuffer) → written (append piece b) ≡ written b ++ piece
unfolding append
written-append piece b = elim (Bool-cases (ltb capacity (length piece))) [
  | inl long ↦
      let room = make_room (length piece) b in
      let none : room.pending ≡ [] = emptied (length piece) b.pending b.sent (ltb→lt _ _ long) in
      let same : join room.sent ≡ written b =
        sym (append-nil (join room.sent))
        ∙ ap (λ p. join room.sent ++ p) (sym none)
        ∙ written-make_room (length piece) b in
      simp long (
        ap (λ p. join (room.sent ++ (piece ∷ [])) ++ p) none
        ∙ append-nil _
        ∙ join-snoc room.sent piece
        ∙ ap (λ w. w ++ piece) same)
  | inr short ↦
      let room = make_room (length piece) b in
      simp short (
        sym (append_assoc (join room.sent) room.pending piece)
        ∙ ap (λ w. w ++ piece) (written-make_room (length piece) b))
]

pieces_in :
    (limit : ℕ) (p : List ℕ) → 0 < length p → length p ≤ limit → All (IsPiece limit) (p ∷ [])
pieces_in limit p h k = ((h, k), tt)

flush-IsBounded :
    (limit : ℕ) (b : PassthroughBuffer)
    → capacity ≤ limit
    → IsBounded limit b
    → 0 < length b.pending
    → IsBounded limit (flush b)
unfolding flush
flush-IsBounded limit b h i p =
    (All-append (IsPiece limit) b.sent (b.pending ∷ []) i.0 ((p, omega arith), tt), omega arith)

make_room-IsBounded :
    (limit n : ℕ) (b : PassthroughBuffer)
    → capacity ≤ limit
    → IsBounded limit b
    → IsBounded limit (make_room n b)
unfolding make_room
make_room-IsBounded limit n b h i = elim (Bool-cases (ltb 0 (length b.pending))) [
  | inl some_left ↦ elim (Bool-cases (ltb capacity (length b.pending + n))) [
    | inl full ↦ simp (some_left, full) (flush-IsBounded limit b h i (ltb→lt _ _ some_left))
    | inr room ↦ simp (some_left, room) i
  ]
  | inr empty ↦ simp empty i
]

not_above : (a b : ℕ) → ltb a b ≡ false → b ≤ a
not_above a b h = ground arith

append-IsBounded :
    (limit : ℕ) (piece : List ℕ) (b : PassthroughBuffer)
    → capacity ≤ limit
    → length piece ≤ limit
    → IsBounded limit b
    → IsBounded limit (append piece b)
unfolding append
append-IsBounded limit piece b h l i =
    let room = make_room (length piece) b in
    let kept = make_room-IsBounded limit (length piece) b h i in
    elim (Bool-cases (ltb capacity (length piece))) [
      | inl long ↦
          simp long (
            All-append (IsPiece limit) room.sent (piece ∷ []) kept.0 ((omega tests, l), tt),
            kept.1,
          )
      | inr short ↦ simp short (
        kept.0,
        omega (
          arith,
          length-append room.pending piece,
          room_lem (length piece) b.pending b.sent (not_above _ _ short) i.1,
        ),
      )
    ]

append_all_lem :
    (limit : ℕ) (pieces : List (List ℕ)) (b : PassthroughBuffer)
    → capacity ≤ limit
    → All (λ p. length p ≤ limit) pieces
    → IsBounded limit b
    → IsBounded limit (append_all pieces b)
      × (written (append_all pieces b) ≡ written b ++ join pieces)
unfolding append_all
append_all_lem limit [] b h l i = (i, sym (append-nil (written b)))
append_all_lem limit (p ∷ ps) b h l i =
    let ih = append_all_lem limit ps (append p b) h l.1 (append-IsBounded limit p b h l.0 i) in
    (
      ih.0,
      ih.1 ∙ ap (λ w. w ++ join ps) (written-append p b) ∙ append_assoc (written b) p (join ps),
    )

destruct-sent :
    (limit : ℕ) (b : PassthroughBuffer)
    → capacity ≤ limit
    → IsBounded limit b
    → All (IsPiece limit) (destruct b).sent × ((destruct b).pending ≡ [])
unfolding destruct
destruct-sent limit b h i = by_pending b.pending b.sent i
  where
    by_pending :
        (p : List ℕ) (s : List (List ℕ))
        → let c : PassthroughBuffer = record { pending = p; sent = s } in
          IsBounded limit c
          → All (IsPiece limit) (if ltb 0 (length p) then flush c else c).sent
            × ((if ltb 0 (length p) then flush c else c).pending ≡ [])
    by_pending [] s i = (i.0, refl)
    by_pending (x ∷ xs) s i =
        let c : PassthroughBuffer = record { pending = x ∷ xs; sent = s } in
        let some_left : ltb 0 (length (x ∷ xs)) ≡ true = lt→ltb _ _ (omega arith) in
        simp some_left ((flush-IsBounded limit c h i (omega arith)).0, unfold flush in refl)

-- What a buffer has sent once it is destructed.
closed_lem :
    (limit : ℕ) (b : PassthroughBuffer)
    → capacity ≤ limit
    → IsBounded limit b
    → (join (destruct b).sent ≡ written b)
      × All (IsPiece limit) (destruct b).sent
      × ((destruct b).pending ≡ [])
closed_lem limit b h i =
    let closed = destruct-sent limit b h i in
    (
      sym (append-nil _)
          ∙ ap (λ p. join (destruct b).sent ++ p) (sym closed.1)
          ∙ written-destruct b,
      closed.0,
      closed.1,
    )

abbrev pub separator_of : Bool → List ℕ
separator_of true = 206 ∷ []
separator_of false = []

-- Once the buffer is destructed, the handler was given exactly the bytes that were written, in order,
-- with the separator behind them where there is one. No call has no data, and none has more bytes than
-- both the capacity of the buffer and the longest piece.
pub pass_through-join :
    (limit : ℕ) (pieces : List (List ℕ)) (separator : Bool)
    → capacity ≤ limit
    → All (λ p. length p ≤ limit) pieces
    → (join (pass_through pieces separator).sent ≡ join pieces ++ separator_of separator)
      × All (IsPiece limit) (pass_through pieces separator).sent
      × ((pass_through pieces separator).pending ≡ [])
unfolding pass_through
pass_through-join limit pieces true h l =
    let filled =
      append_all_lem limit pieces (record { pending = []; sent = [] }) h l (tt, omega arith) in
    let ended = append-IsBounded limit (206 ∷ []) _ h (omega arith) filled.0 in
    let closed = closed_lem limit _ h ended in
    (
      closed.0
          ∙ written-append (206 ∷ []) (append_all pieces (record { pending = []; sent = [] }))
          ∙ ap (λ w. w ++ (206 ∷ [])) filled.1,
      closed.1,
      closed.2,
    )
pass_through-join limit pieces false h l =
    let filled =
      append_all_lem limit pieces (record { pending = []; sent = [] }) h l (tt, omega arith) in
    let closed = closed_lem limit _ h filled.0 in
    (closed.0 ∙ filled.1 ∙ sym (append-nil (join pieces)), closed.1, closed.2)
