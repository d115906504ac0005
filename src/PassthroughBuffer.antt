-- ===== src/PassthroughBuffer.antt =====
-- src/passthroughbuffer.h: the buffer that collects what a frame writes and hands it to
-- `ConnectionHandler::onData`. `pending` is the first `_size` bytes of `_buffer`, and `sent` is what
-- `onData` was given; the pieces are the arguments of the calls of `append` that `Frame::fill` makes.
pub mod Chunks
use amqp_cpp.Base.{ℕ, ◌+◌, Bool, ◌&&◌, ltb, if◌then◌else◌, List, [], ◌∷◌, ◌++◌, length}

pub record PassthroughBuffer : Type 0 where
  pub pending : List ℕ
  pub sent : List (List ℕ)

abbrev pub capacity : ℕ
capacity = 4096

unfoldable pub flush : PassthroughBuffer → PassthroughBuffer
flush b = record { pending = []; sent = b.sent ++ (b.pending ∷ []) }

-- The first test of `append`.
unfoldable pub make_room : ℕ → PassthroughBuffer → PassthroughBuffer
unfolding flush
make_room size b =
    if ltb 0 (length b.pending) && ltb capacity (length b.pending + size) then flush b else b

unfoldable pub append : List ℕ → PassthroughBuffer → PassthroughBuffer
unfolding make_room
append piece b =
    let b' = make_room (length piece) b in
    if ltb capacity (length piece)
    then record b' { sent = b'.sent ++ (piece ∷ []) }
    else record b' { pending = b'.pending ++ piece }

unfoldable pub append_all : List (List ℕ) → PassthroughBuffer → PassthroughBuffer
unfolding append
append_all [] b = b
append_all (piece ∷ pieces) b = append_all pieces (append piece b)

unfoldable pub destruct : PassthroughBuffer → PassthroughBuffer
unfolding flush
destruct b = if ltb 0 (length b.pending) then flush b else b

-- The constructor and the destructor, for a frame that writes these pieces.
unfoldable pub pass_through : List (List ℕ) → Bool → PassthroughBuffer
unfolding append_all destruct
pass_through pieces separator =
    let filled = append_all pieces (record { pending = []; sent = [] }) in
    destruct (if separator then append (206 ∷ []) filled else filled)
