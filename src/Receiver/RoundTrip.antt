-- ===== src/Receiver/RoundTrip.antt =====
-- The frames of a message as `ChannelImpl::publish` cuts it, read by a consumer.
use amqp_cpp.Base.{
  ℕ, ◌+◌, ◌-◌, ◌%◌, ◌^◌, ◌<◌, ◌≤◌, ◌≡◌, refl, sym, ap, ap₂, ◌∙◌, Bool, true, false, leb, ◌==◌,
  if◌then◌else◌, List, [], ◌∷◌, ◌++◌, map, length, take, min, All, none, some, arith, length-append,
  append_assoc, append-nil, take-length,
}
use amqp_cpp.Field.BooleanSet.{get}
use amqp_cpp.Channel.Publish.{Envelope, envelope_header}
use amqp_cpp.Frame.{Frame, method_frame, body_frame, basic_method}
use amqp_cpp.Frame.Basic.{deliver}
use amqp_cpp.Channel.Publish.Frames.{chunks, join, join-chunks, chunks-IsPiece, IsPiece}
use amqp_cpp.Receiver.{
  Message, Event, Receiver, started, sized, headers, payload, message, delivered, new_message,
  append, set_header, complete, process_deliver, process_header, process_body, receive, receive_all,
}

-- A message that has its first bytes, and the receiver that waits for the others.
abbrev partly : Receiver → Message → List ℕ → ℕ → List Event → Receiver
partly r m stored left events = record r {
  body_size = left;
  pending = some (record m { allocated = true; bytes = stored; filled = length stored });
  installed = true;
  events = events;
}

-- The message is out, and the channel has forgotten the receiver.
abbrev pub done_with : Receiver → Message → List ℕ → List Event → Receiver
done_with r m body events = record r {
  body_size = 0;
  pending = none;
  installed = false;
  events =
      events
      ++ (message m.exchange m.routing_key m.properties body r.delivery_tag r.redelivered
          ∷ delivered r.delivery_tag r.redelivered
          ∷ []);
}

take-min_all : (n : ℕ) (xs : List ℕ) → length xs ≤ n → take (min (length xs) n) xs ≡ xs
take-min_all n xs h = let e : min (length xs) n ≡ length xs = omega arith in rw e (take-length xs)

append-stored :
    (m : Message) (stored bytes : List ℕ)
    → length stored + length bytes ≤ m.body_size
    → m.body_size < 2 ^ 64
    → append (record m { allocated = true; bytes = stored; filled = length stored }) bytes
      ≡ record m { allocated = true; bytes = stored ++ bytes; filled = length (stored ++ bytes) }
unfolding append
append-stored m stored bytes h l =
    let e : min (length bytes) ((m.body_size + 2 ^ 64 - length stored) % 2 ^ 64) ≡ length bytes =
      omega arith in
    rw (e, take-length bytes, length-append stored bytes)

-- A body frame for a message that has its first bytes.
body_step :
    (r : Receiver) (m : Message) (id : ℕ) (stored bytes : List ℕ) (left : ℕ) (events : List Event)
    → length stored + length bytes ≤ m.body_size
    → m.body_size < 2 ^ 64
    → length bytes < 2 ^ 32
    → length bytes + left < 2 ^ 64
    → let r' = partly r m (stored ++ bytes) left (events ++ (payload bytes ∷ [])) in
      receive (partly r m stored (length bytes + left) events) (body_frame id bytes)
      ≡ (if left == 0 then complete r' else r')
unfolding receive process_body
body_step r m id stored bytes left events h l w q =
    let e : (length bytes + left + 2 ^ 64 - length bytes % 2 ^ 32) % 2 ^ 64 ≡ left = omega arith in
    rw (e, append-stored m stored bytes h l)

complete-partly :
    (r : Receiver) (m : Message) (stored : List ℕ) (events : List Event)
    → m.body_size ≡ length stored
    → complete (partly r m stored 0 events) ≡ done_with r m stored events
unfolding complete
complete-partly r m stored events e =
    ap
      (λ b. record r {
        body_size = 0;
        pending = none;
        installed = false;
        events =
            events
            ++ (message m.exchange m.routing_key m.properties b r.delivery_tag r.redelivered
                ∷ delivered r.delivery_tag r.redelivered
                ∷ []);
      })
      (simp e (take-length stored))

test_pos : (n : ℕ) → 0 < n → (n == 0) ≡ false
test_pos n h = ground arith

receive_all-cons :
    (r : Receiver) (f : Frame) (fs : List Frame)
    → receive_all r (f ∷ fs) ≡ receive_all (receive r f) fs
unfolding receive_all
receive_all-cons r f fs = refl

receive_all-nil : (r : Receiver) → receive_all r [] ≡ r
unfolding receive_all
receive_all-nil r = refl

bodies-partly :
    (b : List ℕ) (bs : List (List ℕ)) (r : Receiver) (m : Message) (id max : ℕ) (stored : List ℕ)
    (events : List Event)
    → m.body_size ≡ length stored + length (join (b ∷ bs))
    → m.body_size < 2 ^ 64
    → max < 2 ^ 32
    → All (IsPiece max) (b ∷ bs)
    → receive_all (partly r m stored (length (join (b ∷ bs))) events) (map (body_frame id) (b ∷ bs))
      ≡ done_with r m (stored ++ join (b ∷ bs)) (events ++ map payload (b ∷ bs))
bodies-partly b [] r m id max stored events e l w pieces =
    let n : length (b ++ []) ≡ length b + 0 = omega (arith, length-append b []) in
    let sizes : m.body_size ≡ length (stored ++ b) =
      omega (arith, length-append stored b, length-append b []) in
    rw (n, append-nil b, receive_all-cons, receive_all-nil)
      (body_step r m id stored b 0 events (omega (arith, length-append b [])) l (omega arith)
          (omega (arith, length-append b []))
        ∙ complete-partly r m (stored ++ b) (events ++ (payload b ∷ [])) sizes)
bodies-partly b (b' ∷ bs) r m id max stored events e l w pieces =
    let rest = join (b' ∷ bs) in
    let n = length-append b rest in
    let some_left : 0 < length rest = omega (arith, length-append b' (join bs)) in
    let step =
      body_step r m id stored b (length rest) events (omega (arith, n)) l (omega arith)
        (omega (arith, n)) in
    let ih =
      bodies-partly b' bs r m id max (stored ++ b) (events ++ (payload b ∷ []))
        (omega (arith, n, length-append stored b)) l w pieces.1 in
    rw (n, receive_all-cons, step, test_pos (length rest) some_left)
      (ih
        ∙ ap₂ (λ s v. done_with r m s v) (append_assoc stored b rest)
            (append_assoc events (payload b ∷ []) (map payload (b' ∷ bs))))

-- A message of that size without a byte of its body, and its receiver.
abbrev sized_message : Message → ℕ → Message
sized_message m size = record m { body_size = size; allocated = false; filled = 0; bytes = [] }

abbrev expecting : Receiver → Message → ℕ → List Event → Receiver
expecting r m size events = record r {
  body_size = size;
  pending = some (sized_message m size);
  installed = true;
  events = events;
}

leb_refl : (n : ℕ) → leb n n ≡ true
leb_refl n = ground arith

leb_less : (n k : ℕ) → 0 < k → leb (n + k) n ≡ false
leb_less n k h = ground arith

only_piece :
    (r : Receiver) (m : Message) (id : ℕ) (p : List ℕ) (events : List Event)
    → length p < 2 ^ 32
    → receive (expecting r m (length p) events) (body_frame id p)
      ≡ done_with r m p (events ++ (payload p ∷ []))
unfolding receive process_body append complete
only_piece r m id p events w =
    let e : (length p + 2 ^ 64 - length p % 2 ^ 32) % 2 ^ 64 ≡ 0 = omega arith in
    rw (e, leb_refl (length p), take-length p)

first_piece :
    (r : Receiver) (m : Message) (id : ℕ) (p : List ℕ) (left : ℕ) (events : List Event)
    → length p < 2 ^ 32
    → 0 < left
    → length p + left < 2 ^ 64
    → receive (expecting r m (length p + left) events) (body_frame id p)
      ≡ partly r (sized_message m (length p + left)) p left (events ++ (payload p ∷ []))
unfolding receive process_body append
first_piece r m id p left events w h q =
    let e : (length p + left + 2 ^ 64 - length p % 2 ^ 32) % 2 ^ 64 ≡ left = omega arith in
    let f : min (length p) (length p + left) ≡ length p = omega arith in
    rw (e, leb_less (length p) left h, f, take-length p, test_pos left h)

pieces-expecting :
    (p : List ℕ) (ps : List (List ℕ)) (r : Receiver) (m : Message) (id max : ℕ)
    (events : List Event)
    → length (join (p ∷ ps)) < 2 ^ 64
    → max < 2 ^ 32
    → All (IsPiece max) (p ∷ ps)
    → receive_all (expecting r m (length (join (p ∷ ps))) events) (map (body_frame id) (p ∷ ps))
      ≡ done_with r m (join (p ∷ ps)) (events ++ map payload (p ∷ ps))
pieces-expecting p [] r m id max events l w pieces =
    rw (append-nil p, receive_all-cons, receive_all-nil) (only_piece r m id p events (omega arith))
pieces-expecting p (p' ∷ ps) r m id max events l w pieces =
    let rest = join (p' ∷ ps) in
    let n = length-append p rest in
    let some_left : 0 < length rest = omega (arith, length-append p' (join ps)) in
    let start =
      first_piece r m id p (length rest) events (omega arith) some_left (omega (arith, n)) in
    let ih =
      bodies-partly p' ps r (sized_message m (length p + length rest)) id max p
        (events ++ (payload p ∷ [])) refl (omega (arith, n)) w pieces.1 in
    rw (n, receive_all-cons, start)
      (ih
        ∙ ap (λ v. done_with r m (p ++ rest) v)
            (append_assoc events (payload p ∷ []) (map payload (p' ∷ ps))))

-- What the callbacks are told of a message that comes in those pieces.
abbrev pub told_of : List ℕ → List ℕ → Envelope → ℕ → Bool → List (List ℕ) → List Event
told_of exchange routing_key envelope tag redelivered pieces =
    started exchange routing_key
    ∷ sized (length envelope.body)
    ∷ headers envelope.properties
    ∷ (map payload pieces
        ++ (message exchange routing_key envelope.properties envelope.body tag redelivered
            ∷ delivered tag redelivered
            ∷ []))

-- The receiver behind the delivery and the header.
abbrev announced : Receiver → ℕ → Bool → List ℕ → List ℕ → Envelope → Receiver
announced r tag redelivered exchange routing_key envelope = record r {
  delivery_tag = tag;
  redelivered = redelivered;
  events =
      (r.events ++ (started exchange routing_key ∷ []))
      ++ (sized (length envelope.body) ∷ headers envelope.properties ∷ []);
}

opening :
    (r : Receiver) (id tag bits : ℕ) (consumer exchange routing_key : List ℕ) (envelope : Envelope)
    → r.wants_message ≡ true
    → let a = announced r tag (get bits 0) exchange routing_key envelope in
      let m = record (new_message exchange routing_key) { properties = envelope.properties } in
      let e = expecting a m (length envelope.body) a.events in
      receive
        (receive r
          (method_frame id (basic_method (deliver consumer tag bits exchange routing_key))))
        (envelope_header id envelope)
      ≡ (if length envelope.body == 0 then complete e else e)
unfolding receive process_header process_deliver envelope_header set_header
opening r id tag bits consumer exchange routing_key envelope w = simp w refl

pieces_of :
    (ps : List (List ℕ)) (body : List ℕ) (r : Receiver) (m : Message) (id max : ℕ)
    (events : List Event)
    → join ps ≡ body
    → 0 < length body
    → length body < 2 ^ 64
    → max < 2 ^ 32
    → All (IsPiece max) ps
    → receive_all (expecting r m (length body) events) (map (body_frame id) ps)
      ≡ done_with r m body (events ++ map payload ps)
pieces_of [] body r m id max events e h l w a = absurd (omega (arith, ap length e))
pieces_of (p ∷ ps) body r m id max events e h l w a =
    rw (← e) (pieces-expecting p ps r m id max events (rw e l) w a)

regroup {ℓ} :
    {A : Type ℓ} (a p d : List A) (s z h : A)
    → (((a ++ (s ∷ [])) ++ (z ∷ h ∷ [])) ++ p) ++ d ≡ a ++ (s ∷ z ∷ h ∷ (p ++ d))
regroup a p d s z h = simp append_assoc

body_received :
    (body : List ℕ) (r : Receiver) (m : Message) (id max : ℕ) (events : List Event)
    → 0 < max
    → max < 2 ^ 32
    → length body < 2 ^ 64
    → let e = expecting r m (length body) events in
      receive_all
        (if length body == 0 then complete e else e)
        (map (body_frame id) (chunks (length body) max body))
      ≡ done_with r m body (events ++ map payload (chunks (length body) max body))
body_received [] r m id max events p w l =
    unfold chunks receive_all complete in ap (λ v. done_with r m [] v) (sym (append-nil events))
body_received (x ∷ xs) r m id max events p w l =
    let n = length (x ∷ xs) in
    rw (test_pos n (omega arith)) (
      pieces_of (chunks n max (x ∷ xs)) (x ∷ xs) r m id max events
        (join-chunks n max (x ∷ xs) (omega arith) p) (omega arith) l w
        (chunks-IsPiece n max (x ∷ xs) p))

-- A consumer that wants whole messages gets the message that was published: fed with the delivery, the
-- header and the body frames that publishing makes of it, for any size of frame, it is told of each
-- part in order and then of the message with exactly the body and the properties of the envelope, and
-- the channel forgets it.
pub receive_all-message :
    (r : Receiver) (id max tag bits : ℕ) (consumer exchange routing_key : List ℕ)
    (envelope : Envelope)
    → r.wants_message ≡ true
    → 0 < max
    → max < 2 ^ 32
    → length envelope.body < 2 ^ 64
    → let pieces = chunks (length envelope.body) max envelope.body in
      receive_all r (
        method_frame id (basic_method (deliver consumer tag bits exchange routing_key))
        ∷ envelope_header id envelope
        ∷ map (body_frame id) pieces)
      ≡ record r {
        body_size = 0;
        pending = none;
        delivery_tag = tag;
        redelivered = get bits 0;
        installed = false;
        events = r.events ++ told_of exchange routing_key envelope tag (get bits 0) pieces;
      }
receive_all-message r id max tag bits consumer exchange routing_key envelope w p q l =
    rw
      (
        receive_all-cons,
        receive_all-cons,
        opening r id tag bits consumer exchange routing_key envelope w,
      )
      (body_received envelope.body (announced r tag (get bits 0) exchange routing_key envelope)
          (record (new_message exchange routing_key) { properties = envelope.properties }) id max _
          p q l
        ∙ ap
            (λ v. record r {
              body_size = 0;
              pending = none;
              delivery_tag = tag;
              redelivered = get bits 0;
              installed = false;
              events = v;
            })
            (regroup r.events _ _ _ _ _))
