-- ===== src/TcpOutBuffer.antt =====
-- src/linux_tcp/tcpoutbuffer.h: the data that a socket did not accept yet. `buffers`, `skip` and `size`
-- are the members `_buffers`, `_skip` and `_size`. The socket is a parameter: `sendmsg` stands for the
-- call of the operating system. The loop of `sendto` recurs on fuel; `none` is running out.
pub mod Content
pub mod Sending
use amqp_cpp.Base.{
  ℕ, zero, suc, ◌+◌, ◌-◌, Bool, true, false, ◌||◌, ◌==◌, ltb, leb, if◌then◌else◌, List, [], ◌∷◌,
  ◌++◌, length, take, drop, Option, none, some,
}
use amqp_cpp.Connection.{is_empty}
use amqp_cpp.Base.Int.{ℤ, pos, negsuc}

pub record TcpOutBuffer : Type 0 where
  pub buffers : List (List ℕ)
  pub skip : ℕ
  pub size : ℕ

abbrev pub empty_buffer : TcpOutBuffer
empty_buffer = record { buffers = []; skip = 0; size = 0 }

unfoldable pub add : List ℕ → TcpOutBuffer → TcpOutBuffer
add bytes b = record b { buffers = b.buffers ++ (bytes ∷ []); size = b.size + length bytes }

unfoldable pub clear : TcpOutBuffer → TcpOutBuffer
clear b = empty_buffer

-- The loop of `shrink`, by the buffers it takes from the front.
unfoldable pub shrink_loop : List (List ℕ) → ℕ → ℕ → ℕ → TcpOutBuffer
shrink_loop [] skip size to_remove = record { buffers = []; skip = skip; size = size }
shrink_loop (first ∷ others) skip size to_remove =
    let bytes = length first - skip in
    let rest = shrink_loop others 0 (size - bytes) (to_remove - bytes) in
    if to_remove == 0
    then record { buffers = first ∷ others; skip = skip; size = size }
    else if leb bytes to_remove
    then rest
    else record { buffers = first ∷ others; skip = skip + to_remove; size = size - to_remove }

unfoldable pub shrink : ℕ → TcpOutBuffer → TcpOutBuffer
unfolding shrink_loop clear
shrink to_remove b =
    if leb b.size to_remove then clear b else shrink_loop b.buffers b.skip b.size to_remove

-- The entries that `fill` writes into an array of `count` of them; `count` is at least 1.
unfoldable pub fill_from : ℕ → ℕ → List (List ℕ) → List (List ℕ)
fill_from count skip [] = []
fill_from count skip (first ∷ others) = take count (drop skip first ∷ others)

unfoldable pub fill : ℕ → TcpOutBuffer → List (List ℕ)
unfolding fill_from
fill count b = fill_from count b.skip b.buffers

-- The operating system: what was delivered on the socket, and the call that sends.
pub record Socket {ℓ} (S : Type ℓ) : Type ℓ where
  pub delivered : S → List ℕ
  pub sendmsg : List (List ℕ) → S → S × ℤ

-- What a call that sent nothing makes `sendto` return.
unfoldable pub result_of : ℕ → ℤ → ℤ
result_of total result = if ltb 0 total then pos total else result

-- The buffer that is left, the socket, and the value that `sendto` returns.
abbrev pub Outcome {ℓ} : Type ℓ → Type ℓ
Outcome S = TcpOutBuffer × S × ℤ

-- What a round does with the result of the call.
unfoldable pub after_call {ℓ} :
    {S : Type ℓ}
    → (ℕ → TcpOutBuffer → S → Option (Outcome S))
    → ℕ
    → TcpOutBuffer
    → S × ℤ
    → Option (Outcome S)
unfolding shrink result_of
after_call next_round total b (s, pos (suc r)) = next_round (total + suc r) (shrink (suc r) b) s
after_call next_round total b (s, pos zero) = some (b, s, result_of total (pos 0))
after_call next_round total b (s, negsuc r) = some (b, s, result_of total (negsuc r))

unfoldable pub sendto_loop {ℓ} :
    {S : Type ℓ} → Socket S → ℕ → ℕ → TcpOutBuffer → S → Option (Outcome S)
unfolding after_call fill
sendto_loop o zero total b s = none
sendto_loop o (suc n) total b s =
    let rest = after_call (sendto_loop o n) total b (o.sendmsg (fill 64 b) s) in
    if b.size == 0 || is_empty (fill 64 b) then some (b, s, pos total) else rest

unfoldable pub sendto {ℓ} : {S : Type ℓ} → Socket S → TcpOutBuffer → S → Option (Outcome S)
unfolding sendto_loop
sendto o b s = sendto_loop o (suc b.size) 0 b s
