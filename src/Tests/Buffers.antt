-- ===== src/Tests/Buffers.antt =====
-- Runs of the models of src/passthroughbuffer.h and src/linux_tcp/tcpoutbuffer.h.
use amqp_cpp.Base.{
  ◌≡◌, ◌≤◌, ◌-◌, ◌⊎◌, refl, true, [], ◌∷◌, ◌++◌, some, arith, List, ℕ, length, take, All, min,
}
use amqp_cpp.Base.Int.{pos}
use amqp_cpp.Channel.Publish.Frames.{join, IsPiece}
use amqp_cpp.PassthroughBuffer.{pass_through}
use amqp_cpp.PassthroughBuffer.Chunks.{pass_through-join, separator_of}
use amqp_cpp.TcpOutBuffer.{TcpOutBuffer, Socket, sendto, Outcome}
use amqp_cpp.TcpOutBuffer.Content.{content, IsConsistent}
use amqp_cpp.TcpOutBuffer.Sending.{IsSocket, sendto-Sent}

abbrev pieces : List (List ℕ)
pieces = (1 ∷ 2 ∷ []) ∷ [] ∷ (3 ∷ []) ∷ []

pass_through-join_example :
    (join (pass_through pieces true).sent ≡ join pieces ++ separator_of true)
    × All (IsPiece 4096) (pass_through pieces true).sent
    × ((pass_through pieces true).pending ≡ [])
pass_through-join_example =
    pass_through-join 4096 pieces true (omega arith) (omega arith, (omega arith, (omega arith, tt)))

-- A socket that takes at most two bytes at a time.
abbrev two_at_a_time : Socket (List ℕ)
two_at_a_time = record {
  delivered = λ s. s;
  sendmsg = λ given s.
      (s ++ take (min 2 (length (join given))) (join given), pos (min 2 (length (join given))));
}

two_at_a_time-IsSocket : IsSocket two_at_a_time
two_at_a_time-IsSocket given s = (omega arith, refl)

-- The first of three buffers is sent in part.
abbrev unsent : TcpOutBuffer
unsent = record { buffers = (1 ∷ 2 ∷ []) ∷ (3 ∷ 4 ∷ 5 ∷ []) ∷ (6 ∷ []) ∷ []; skip = 1; size = 5 }

sendto-Sent_example :
    (out : Outcome (List ℕ)) × (sendto two_at_a_time unsent (9 ∷ []) ≡ some out)
    × IsConsistent out.0
    × (out.1 ++ content out.0 ≡ (9 ∷ []) ++ content unsent)
    × (out.0.size ≤ unsent.size)
    × ((out.2 ≡ pos (unsent.size - out.0.size)) ⊎ (out.0.size ≡ unsent.size))
sendto-Sent_example =
    sendto-Sent two_at_a_time unsent (9 ∷ []) two_at_a_time-IsSocket (omega arith, refl)
