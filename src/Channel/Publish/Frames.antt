-- ===== src/Channel/Publish/Frames.antt =====
-- `ChannelImpl::publish` against the list of frames of a message, and the body frames against the
-- limit on frames.
use amqp_cpp.Base.{
  ℕ, zero, suc, ◌+◌, ◌^◌, ◌<◌, ◌≤◌, ◌≡◌, refl, ap, ap₂, ◌∙◌, Bool, true, false, if◌then◌else◌, List,
  [], ◌∷◌, ◌++◌, map, length, take, drop, min, All, some, arith, length-take, length-drop,
  take-append-drop, Bool-cases, inl, inr,
}
use amqp_cpp.Frame.{Frame, body_frame, total_size, payload_size}
use amqp_cpp.Connection
use amqp_cpp.Connection.{ConnectionImpl, is_empty}
use amqp_cpp.Channel.{ChannelImpl, Result, send, max_payload}
use amqp_cpp.Channel.Publish.{
  Envelope, publish_frame, envelope_header, chunk_loop, publish_body, publish,
}

-- Frames go out one by one, up to the first that is refused.
unfoldable pub send_while : List Frame → ChannelImpl → ConnectionImpl → Result
send_while [] c k = (c, k, true)
send_while (f ∷ fs) c k =
    let (c', k', sent) = send c k f in
    let rest = send_while fs c' k' in if sent then rest else (c', k', false)

-- The body cut into pieces of that size, the last one smaller.
unfoldable pub chunks : ℕ → ℕ → List ℕ → List (List ℕ)
chunks zero max body = []
chunks (suc n) max body =
    let rest = chunks n max (drop max body) in if is_empty body then [] else take max body ∷ rest

unfoldable pub message_frames : ℕ → ℕ → List ℕ → List ℕ → Envelope → ℕ → List Frame
unfolding chunks
message_frames id max exchange routing_key envelope flags =
    publish_frame id exchange routing_key flags
    ∷ envelope_header id envelope
    ∷ map (body_frame id) (chunks (length envelope.body) max envelope.body)

pub send-keeps :
    (c : ChannelImpl) (k : ConnectionImpl) (f : Frame)
    → ((send c k f).0.id ≡ c.id)
      × ((send c k f).0.linked ≡ c.linked)
      × ((send c k f).1.max_frame ≡ k.max_frame)
unfolding send Connection.send
send-keeps c k f = ground arith

min-suc : (a b : ℕ) → min (suc a) (suc b) ≡ suc (min a b)
min-suc a b = omega arith

min-zero : (n : ℕ) → min n 0 ≡ 0
min-zero n = omega arith

take-min : (n : ℕ) (xs : List ℕ) → take (min n (length xs)) xs ≡ take n xs
take-min zero [] = refl
take-min (suc n) [] = rw (min-zero (suc n))
take-min zero (x ∷ xs) = let e : min 0 (suc (length xs)) ≡ 0 = omega arith in rw e
take-min (suc n) (x ∷ xs) = rw (min-suc n (length xs)) (ap (◌∷◌ x) (take-min n xs))

drop-min : (n : ℕ) (xs : List ℕ) → drop (min n (length xs)) xs ≡ drop n xs
drop-min zero [] = refl
drop-min (suc n) [] = rw (min-zero (suc n))
drop-min zero (x ∷ xs) = let e : min 0 (suc (length xs)) ≡ 0 = omega arith in rw e
drop-min (suc n) (x ∷ xs) = rw (min-suc n (length xs)) (drop-min n xs)

-- One round of the loop.
pub chunk_loop_step :
    (n max x : ℕ) (xs : List ℕ) (c : ChannelImpl) (k : ConnectionImpl)
    → let left = x ∷ xs in
      let (c', k', sent) = send c k (body_frame c.id (take max left)) in
      chunk_loop (suc n) max left c k
      ≡ (if sent then chunk_loop n max (drop max left) c' k' else some (c', k', false))
unfolding chunk_loop
chunk_loop_step n max x xs c k = rw (take-min max (x ∷ xs), drop-min max (x ∷ xs))

fewer :
    (n max x : ℕ) (xs : List ℕ) → length (x ∷ xs) ≤ suc n → 0 < max → length (drop max (x ∷ xs)) ≤ n
fewer n max x xs h m = omega (arith, length-drop max (x ∷ xs))

chunk_loop-chunks :
    (n max : ℕ) (left : List ℕ) (c : ChannelImpl) (k : ConnectionImpl)
    → length left ≤ n
    → 0 < max
    → chunk_loop n max left c k ≡ some (send_while (map (body_frame c.id) (chunks n max left)) c k)
unfolding chunks send_while
chunk_loop-chunks zero max [] c k h m = unfold chunk_loop in refl
chunk_loop-chunks (suc n) max [] c k h m = unfold chunk_loop in refl
chunk_loop-chunks zero max (x ∷ xs) c k h m = elim h [ ]
chunk_loop-chunks (suc n) max (x ∷ xs) c k h m =
    let sent = send c k (body_frame c.id (take max (x ∷ xs))) in
    let ih = chunk_loop-chunks n max (drop max (x ∷ xs)) sent.0 sent.1 (fewer n max x xs h m) m in
    let same = (send-keeps c k (body_frame c.id (take max (x ∷ xs)))).0 in
    chunk_loop_step n max x xs c k ∙ rw (ih, same) (branches sent.2 _ _)
  where
    branches :
        (b : Bool) (r s : Result) → (if b then some r else some s) ≡ some (if b then r else s)
    branches true r s = refl
    branches false r s = refl

-- More rounds than bytes change nothing.
chunks_fuel_from :
    (n m : ℕ) (body : List ℕ) (max : ℕ)
    → length body ≤ n
    → length body ≤ m
    → 0 < max
    → chunks n max body ≡ chunks m max body
unfolding chunks
chunks_fuel_from zero zero [] max h k p = refl
chunks_fuel_from zero (suc m) [] max h k p = refl
chunks_fuel_from (suc n) zero [] max h k p = refl
chunks_fuel_from (suc n) (suc m) [] max h k p = refl
chunks_fuel_from zero m (x ∷ xs) max h k p = elim h [ ]
chunks_fuel_from (suc n) zero (x ∷ xs) max h k p = elim k [ ]
chunks_fuel_from (suc n) (suc m) (x ∷ xs) max h k p =
    ap (◌∷◌ (take max (x ∷ xs)))
      (chunks_fuel_from n m (drop max (x ∷ xs)) max (fewer n max x xs h p) (fewer m max x xs k p) p)

max_payload-send :
    (c : ChannelImpl) (k : ConnectionImpl) (f : Frame) → max_payload (send c k f).1 ≡ max_payload k
unfolding max_payload
max_payload-send c k f = rw (send-keeps c k f).2

publish_body-chunks :
    (body : List ℕ) (c : ChannelImpl) (k : ConnectionImpl)
    → c.linked ≡ true
    → 0 < max_payload k
    → publish_body body c k
      ≡ some (send_while (map (body_frame c.id) (chunks (length body) (max_payload k) body)) c k)
unfolding publish_body
publish_body-chunks [] c k l m = unfold chunks send_while in refl
publish_body-chunks (x ∷ xs) c k l m = simp l (
    chunk_loop-chunks (suc (length (x ∷ xs))) (max_payload k) (x ∷ xs) c k (omega arith) m
    ∙ ap (λ bs. some (send_while (map (body_frame c.id) bs) c k))
        (chunks_fuel_from (suc (length (x ∷ xs))) (length (x ∷ xs)) (x ∷ xs) (max_payload k)
          (omega arith) (omega arith) m))

pub accepts-linked :
    (c : ChannelImpl) (k : ConnectionImpl) (f : Frame) → (send c k f).2 ≡ true → c.linked ≡ true
unfolding send
accepts-linked c k f l = ground arith

-- The body, behind two frames that were accepted.
body_after :
    (body : List ℕ) (c : ChannelImpl) (k : ConnectionImpl) (f g : Frame)
    → 0 < max_payload k
    → let one = send c k f in
      let two = send one.0 one.1 g in
      one.2 ≡ true
      → publish_body body two.0 two.1
        ≡ some (
            send_while
              (map (body_frame c.id) (chunks (length body) (max_payload k) body))
              two.0
              two.1)
body_after body c k f g m e =
    let one = send c k f in
    let two = send one.0 one.1 g in
    let first = send-keeps c k f in
    let second = send-keeps one.0 one.1 g in
    let same : max_payload two.1 ≡ max_payload k =
      max_payload-send one.0 one.1 g ∙ max_payload-send c k f in
    publish_body-chunks body two.0 two.1 (second.1 ∙ first.1 ∙ accepts-linked c k f e) (rw same m)
    ∙ ap₂
        (λ id max.
          some (send_while (map (body_frame id) (chunks (length body) max body)) two.0 two.1))
        (second.0 ∙ first.0) same

-- Where a body frame can carry at least one byte, publishing ends, and is the same as sending the
-- frames of the message one by one up to the first that is refused: the method, the header with the
-- length of the body, and the body in pieces.
pub publish-message_frames :
    (c : ChannelImpl) (k : ConnectionImpl) (exchange routing_key : List ℕ) (envelope : Envelope)
    (flags : ℕ)
    → 0 < max_payload k
    → publish c k exchange routing_key envelope flags
      ≡ some
          (send_while (message_frames c.id (max_payload k) exchange routing_key envelope flags) c k)
unfolding publish message_frames send_while
publish-message_frames c k exchange routing_key envelope flags m =
    let f = publish_frame c.id exchange routing_key flags in
    let g = envelope_header c.id envelope in
    let one = send c k f in
    simp (send-keeps c k f).0 (elim (Bool-cases one.2) [
      | inl e ↦ elim (Bool-cases (send one.0 one.1 g).2) [
        | inl e' ↦ simp (e, e') (body_after envelope.body c k f g m e)
        | inr e' ↦ simp (e, e') refl
      ]
      | inr e ↦ simp e refl
    ])

abbrev pub join : List (List ℕ) → List ℕ
join [] = []
join (b ∷ bs) = b ++ join bs

pub join-chunks :
    (n max : ℕ) (body : List ℕ) → length body ≤ n → 0 < max → join (chunks n max body) ≡ body
unfolding chunks
join-chunks zero max [] h m = refl
join-chunks (suc n) max [] h m = refl
join-chunks zero max (x ∷ xs) h m = elim h [ ]
join-chunks (suc n) max (x ∷ xs) h m =
    ap (λ r. take max (x ∷ xs) ++ r)
      (join-chunks n max (drop max (x ∷ xs)) (fewer n max x xs h m) m)
    ∙ take-append-drop max (x ∷ xs)

-- Neither empty nor longer than that.
abbrev pub IsPiece : ℕ → List ℕ → Type 0
IsPiece max b = (0 < length b) × (length b ≤ max)

pub chunks-IsPiece : (n max : ℕ) (body : List ℕ) → 0 < max → All (IsPiece max) (chunks n max body)
unfolding chunks
chunks-IsPiece zero max body m = tt
chunks-IsPiece (suc n) max [] m = tt
chunks-IsPiece (suc n) max (x ∷ xs) m = (
  (omega (arith, length-take max (x ∷ xs)), omega (arith, length-take max (x ∷ xs))),
  chunks-IsPiece n max (drop max (x ∷ xs)) m,
)

-- A frame within the limit of the connection.
abbrev pub FitsLimit : ℕ → Frame → Type 0
FitsLimit limit f = total_size f ≤ limit

piece-FitsLimit :
    (id limit : ℕ) (b : List ℕ)
    → limit < 2 ^ 32
    → length b + 8 ≤ limit
    → FitsLimit limit (body_frame id b)
unfolding total_size payload_size
piece-FitsLimit id limit b h l = omega arith

pieces-FitsLimit :
    (id max limit : ℕ) (bs : List (List ℕ))
    → limit < 2 ^ 32
    → max + 8 ≤ limit
    → All (IsPiece max) bs
    → All (FitsLimit limit) (map (body_frame id) bs)
pieces-FitsLimit id max limit [] h l a = tt
pieces-FitsLimit id max limit (b ∷ bs) h l a =
    (piece-FitsLimit id limit b h (omega arith), pieces-FitsLimit id max limit bs h l a.1)

payload_room :
    (k : ConnectionImpl)
    → 8 < k.max_frame
    → k.max_frame < 2 ^ 32
    → (0 < max_payload k) × (max_payload k + 8 ≤ k.max_frame)
unfolding max_payload
payload_room k h l = omega arith

pieces_nonempty : (max : ℕ) (bs : List (List ℕ)) → All (IsPiece max) bs → All (λ b. 0 < length b) bs
pieces_nonempty max [] a = tt
pieces_nonempty max (b ∷ bs) a = (a.0.0, pieces_nonempty max bs a.1)

-- Under a limit on frames above 8, in its 32 bits, publishing ends and sends the method, the header and
-- then the body in pieces, up to the first frame that is refused. The pieces are the body and no more,
-- none of them is empty, and no body frame exceeds the limit.
pub publish-FitsLimit :
    (c : ChannelImpl) (k : ConnectionImpl) (exchange routing_key : List ℕ) (envelope : Envelope)
    (flags : ℕ)
    → 8 < k.max_frame
    → k.max_frame < 2 ^ 32
    → (pieces : List (List ℕ)) × (publish c k exchange routing_key envelope flags
        ≡ some (
            send_while
              (publish_frame c.id exchange routing_key flags
                ∷ envelope_header c.id envelope
                ∷ map (body_frame c.id) pieces)
              c
              k))
      × (join pieces ≡ envelope.body)
      × All (λ b. 0 < length b) pieces
      × All (FitsLimit k.max_frame) (map (body_frame c.id) pieces)
publish-FitsLimit c k exchange routing_key envelope flags h l =
    let room = payload_room k h l in
    let max = max_payload k in
    let body = envelope.body in
    let pieces = chunks-IsPiece (length body) max body room.0 in
    (
      chunks (length body) max body,
      unfold message_frames in
          publish-message_frames c k exchange routing_key envelope flags room.0,
      join-chunks (length body) max body (omega arith) room.0,
      pieces_nonempty max (chunks (length body) max body) pieces,
      pieces-FitsLimit c.id max k.max_frame (chunks (length body) max body) l room.1 pieces,
    )
