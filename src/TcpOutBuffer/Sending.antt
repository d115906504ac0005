-- ===== src/TcpOutBuffer/Sending.antt =====
-- The loop of `sendto` in src/linux_tcp/tcpoutbuffer.h, over a socket that may take less than it is
-- given, and that may fail.
use amqp_cpp.Base.{
  ℕ, zero, suc, ◌+◌, ◌-◌, ◌≤◌, ◌<◌, ◌≡◌, ◌⊎◌, refl, sym, ap, ◌∙◌, true, ◌==◌, ltb, lt→ltb, List, [],
  ◌∷◌, ◌++◌, length, take, drop, Option, some, ◌||◌, arith, inl, inr, Bool-cases, append_assoc,
  append-nil, length-append, take_within, take-append-drop,
}
use amqp_cpp.Connection.{is_empty}
use amqp_cpp.Base.Int.{ℤ, pos, negsuc}
use amqp_cpp.Channel.Publish.Frames.{join}
use amqp_cpp.TcpOutBuffer.{
  TcpOutBuffer, Socket, shrink, fill_from, fill, result_of, after_call, sendto_loop, sendto,
  Outcome,
}
use amqp_cpp.TcpOutBuffer.Content.{content, rest_of, IsConsistent, shrink-content}

-- A call that returns a number of bytes delivered that many, from the front of what it was given, and a
-- call that fails delivered nothing.
abbrev pub Delivers : List ℕ → List ℕ → List ℕ → ℤ → Type 0
Delivers given before after (pos n) = (n ≤ length given) × (after ≡ before ++ take n given)
Delivers given before after (negsuc n) = after ≡ before

abbrev pub IsSocket {ℓ} : {S : Type ℓ} → Socket S → Type ℓ
IsSocket {S = S} o =
    (given : List (List ℕ)) (s : S)
    → Delivers (join given) (o.delivered s) (o.delivered (o.sendmsg given s).0)
        (o.sendmsg given s).1

join-take-drop : (n : ℕ) (bs : List (List ℕ)) → join (take n bs) ++ join (drop n bs) ≡ join bs
join-take-drop zero bs = refl
join-take-drop (suc n) [] = refl
join-take-drop (suc n) (b ∷ bs) =
    append_assoc b (join (take n bs)) (join (drop n bs)) ∙ ap (λ r. b ++ r) (join-take-drop n bs)

-- What `fill` gives is the front of the content.
join-fill_from :
    (count skip : ℕ) (bs : List (List ℕ))
    → (rest : List ℕ) × (join (fill_from (suc count) skip bs) ++ rest ≡ rest_of skip bs)
unfolding fill_from
join-fill_from count skip [] = ([], refl)
join-fill_from count skip (first ∷ others) = (
  join (drop count others),
  append_assoc (drop skip first) (join (take count others)) (join (drop count others))
      ∙ ap (λ r. drop skip first ++ r) (join-take-drop count others),
)

join-fill : (b : TcpOutBuffer) → (rest : List ℕ) × (join (fill 64 b) ++ rest ≡ content b)
unfolding fill
join-fill b = join-fill_from 63 b.skip b.buffers

-- What was delivered went out of the content.
taken_lem :
    (n : ℕ) (b : TcpOutBuffer) (before after : List ℕ)
    → IsConsistent b
    → n ≤ length (join (fill 64 b))
    → after ≡ before ++ take n (join (fill 64 b))
    → (n ≤ b.size) × (after ++ content (shrink n b) ≡ before ++ content b)
taken_lem n b before after i h e =
    let (rest, whole) = join-fill b in
    let given = join (fill 64 b) in
    let front : take n given ≡ take n (content b) =
      sym (take_within n given rest h) ∙ ap (take n) whole in
    let left = (shrink-content n b i).1 in
    (
      omega (arith, i.1, length-append given rest, ap length whole),
      rw (e, left, front)
          (append_assoc before (take n (content b)) (drop n (content b))
            ∙ ap (λ r. before ++ r) (take-append-drop n (content b))),
    )

-- The socket has more and the buffer less, and the returned number is what the buffer lost.
abbrev pub Sent {ℓ} : {S : Type ℓ} → Socket S → ℕ → TcpOutBuffer → S → Outcome S → Type 0
Sent o total b s (b', s', r) =
    IsConsistent b'
    × (o.delivered s' ++ content b' ≡ o.delivered s ++ content b)
    × (b'.size ≤ b.size)
    × ((r ≡ pos (total + (b.size - b'.size))) ⊎ ((total ≡ 0) × (b'.size ≡ b.size)))

failed_call :
    (total : ℕ) (r : ℤ) (size : ℕ)
    → (result_of total r ≡ pos (total + (size - size))) ⊎ ((total ≡ 0) × (size ≡ size))
unfolding result_of
failed_call zero r size = inr (refl, refl)
failed_call (suc n) r size =
    let some_sent : ltb 0 (suc n) ≡ true = lt→ltb _ _ (omega arith) in
    let same : suc n ≡ suc n + (size - size) = omega arith in inl (simp some_sent (ap pos same))

by_result :
    (total n size shrunk left : ℕ) (r : ℤ)
    → suc n ≤ size
    → shrunk ≡ size - suc n
    → left ≤ shrunk
    → (r ≡ pos (total + suc n + (shrunk - left))) ⊎ ((total + suc n ≡ 0) × (left ≡ shrunk))
    → (r ≡ pos (total + (size - left))) ⊎ ((total ≡ 0) × (left ≡ size))
by_result total n size shrunk left r h e l (inl returned) =
    let same : total + suc n + (shrunk - left) ≡ total + (size - left) = omega arith in
    inl (returned ∙ ap pos same)
by_result total n size shrunk left r h e l (inr x) = omega (arith, x.0)

module _ {ℓ} {S : Type ℓ} (o : Socket S) (law : IsSocket o) where
  call_lem :
      (next_round : ℕ → TcpOutBuffer → S → Option (Outcome S)) (total n : ℕ) (b : TcpOutBuffer)
      (s : S) (call : S × ℤ)
      → ((t : ℕ) (b' : TcpOutBuffer) (s' : S)
          → IsConsistent b'
          → b'.size < n
          → (out : Outcome S) × (next_round t b' s' ≡ some out) × Sent o t b' s' out)
      → IsConsistent b
      → b.size < suc n
      → Delivers (join (fill 64 b)) (o.delivered s) (o.delivered call.0) call.1
      → (out : Outcome S) × (after_call next_round total b call ≡ some out) × Sent o total b s out
  unfolding after_call
  call_lem next_round total n b s (s', pos zero) ih i h d =
      let same : o.delivered s' ≡ o.delivered s = d.1 ∙ append-nil (o.delivered s) in
      (
        (b, s', result_of total (pos 0)),
        refl,
        (i, ap (λ l. l ++ content b) same, omega arith, failed_call total (pos 0) b.size),
      )
  call_lem next_round total n b s (s', negsuc r) ih i h d = (
    (b, s', result_of total (negsuc r)),
    refl,
    (i, ap (λ l. l ++ content b) d, omega arith, failed_call total (negsuc r) b.size),
  )
  call_lem next_round total n b s (s', pos (suc r)) ih i h d =
      let taken = taken_lem (suc r) b (o.delivered s) (o.delivered s') i d.0 d.1 in
      let shrunk = shrink-content (suc r) b i in
      let (out, e, sent) =
        ih (total + suc r) (shrink (suc r) b) s' shrunk.0 (omega (arith, shrunk.2, taken.0)) in
      (
        out,
        e,
        (
          sent.0,
          sent.1 ∙ taken.1,
          omega (arith, shrunk.2, sent.2),
          by_result total r b.size (shrink (suc r) b).size out.0.size out.2 taken.0 shrunk.2 sent.2
              sent.3,
        ),
      )

  loop_lem :
      (n total : ℕ) (b : TcpOutBuffer) (s : S)
      → IsConsistent b
      → b.size < n
      → (out : Outcome S) × (sendto_loop o n total b s ≡ some out) × Sent o total b s out
  unfolding sendto_loop
  loop_lem zero total b s i h = elim h [ ]
  loop_lem (suc n) total b s i h = elim (Bool-cases (b.size == 0 || is_empty (fill 64 b))) [
    | inl done ↦
        let same : pos total ≡ pos (total + (b.size - b.size)) = ap pos (omega arith) in
        ((b, s, pos total), simp done refl, (i, refl, omega arith, inl same))
    | inr more ↦ simp more (
        call_lem (sendto_loop o n) total n b s (o.sendmsg (fill 64 b) s)
          (λ t b' s' j k. loop_lem n t b' s' j k) i h (law (fill 64 b) s))
  ]

from_zero :
    (n left size : ℕ) (r : ℤ)
    → (r ≡ pos (0 + n)) ⊎ (◌≡◌ {A = ℕ} 0 0 × (left ≡ size))
    → (r ≡ pos n) ⊎ (left ≡ size)
from_zero n left size r (inl returned) =
    let same : 0 + n ≡ n = omega arith in inl (returned ∙ ap pos same)
from_zero n left size r (inr kept) = inr kept.1

-- Over a socket whose calls deliver from the front of what they are given, and that may take part of it
-- or fail, sending ends. The buffer stays consistent, what was delivered and what waits are together
-- what they were before, and the value returned is the number of bytes that the buffer lost, except
-- where it lost none.
pub sendto-Sent {ℓ} :
    {S : Type ℓ} (o : Socket S) (b : TcpOutBuffer) (s : S)
    → IsSocket o
    → IsConsistent b
    → (out : Outcome S) × (sendto o b s ≡ some out)
      × IsConsistent out.0
      × (o.delivered out.1 ++ content out.0 ≡ o.delivered s ++ content b)
      × (out.0.size ≤ b.size)
      × ((out.2 ≡ pos (b.size - out.0.size)) ⊎ (out.0.size ≡ b.size))
sendto-Sent o b s law i =
    let (out, e, sent) = loop_lem o law (suc b.size) 0 b s i (omega arith) in
    (
      out,
      unfold sendto in e,
      sent.0,
      sent.1,
      sent.2,
      from_zero (b.size - out.0.size) out.0.size b.size out.2 sent.3,
    )
