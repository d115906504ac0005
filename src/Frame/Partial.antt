-- ===== src/Frame/Partial.antt =====
-- The beginning of a frame, seen by the constructor of src/receivedframe.cpp.
use amqp_cpp.Base.{
  ℕ, zero, suc, ◌+◌, ◌-◌, ◌^◌, ◌<◌, ◌≤◌, ◌≡◌, sym, ap, ◌∙◌, true, false, List, [], ◌∷◌, ◌++◌,
  length, take, length-take, append-nil, arith, ltb,
}
use mathlib.Core.Path.{subst}
use amqp_cpp.Wire.{ok}
use amqp_cpp.Wire.Reads.{at}
use amqp_cpp.Frame.{Frame, payload_size, fill_payload, fill_header, copied_buffer}
use amqp_cpp.Frame.Size.{
  IsValidFrame, IsWrittenFrame, payload_size-length, length-fill_header, length-copied_parts,
}
use amqp_cpp.Frame.Received.{
  ReceivedFrame, received_frame, check_frame, complete, header, total_size,
}
use amqp_cpp.Frame.Parse.{received, bytes_of, copied-bytes, WithinLimit, Reads-header, channel-lt}

take-append :
    (n : ℕ) (xs ys : List ℕ) → length xs ≤ n → take n (xs ++ ys) ≡ xs ++ take (n - length xs) ys
take-append n [] ys h = let e : n - 0 ≡ n = omega arith in rw e
take-append zero (x ∷ xs) ys h = elim h [ ]
take-append (suc n) (x ∷ xs) ys h =
    let e : suc n - suc (length xs) ≡ n - length xs = omega arith in
    rw e (ap (◌∷◌ x) (take-append n xs ys (omega arith)))

check-incomplete :
    (max : ℕ) (r : ReceivedFrame)
    → WithinLimit max (r.payload_size + 8)
    → complete r ≡ false
    → check_frame max r ≡ ok r
unfolding check_frame
check-incomplete max r w h = ground arith

-- With fewer than seven bytes nothing is known of a frame.
pub short_buffer :
    (bytes : List ℕ) (max : ℕ)
    → length bytes < 7
    → (r : ReceivedFrame) × (received_frame bytes max ≡ ok r)
      × (complete r ≡ false)
      × (header r ≡ false)
unfolding received_frame complete header total_size
short_buffer bytes max h = (
  record {
    position = record { buffer = bytes; skip = 0 };
    type_number = 0;
    channel = 0;
    payload_size = 0;
  },
  ground arith,
  ground arith,
  ground arith,
)

module _ (f : Frame) (v : IsValidFrame f) (w : IsWrittenFrame f)
    (b : length (copied_buffer f) < 2 ^ 32) where
  cut : ℕ → List ℕ
  cut n = take (n - 7) (fill_payload f ++ (206 ∷ []))

  sizes : length (copied_buffer f) ≡ payload_size f + 8
  sizes = omega (arith, payload_size-length f v w b, length-copied_parts f)

  cut_lem : (n : ℕ) → 7 ≤ n → take n (copied_buffer f) ≡ fill_header f ++ cut n
  unfolding cut
  cut_lem n h =
      let whole : copied_buffer f ≡ bytes_of f [] =
        sym (append-nil (copied_buffer f)) ∙ copied-bytes f [] in
      rw whole (
        take-append n (fill_header f) (fill_payload f ++ (206 ∷ []))
          (omega (arith, length-fill_header f))
        ∙ rw (length-fill_header f))

  length-cut : (n : ℕ) → 7 ≤ n → n < length (copied_buffer f) → length (fill_header f ++ cut n) ≡ n
  length-cut n h l = rw (← cut_lem n h) (length-take n (copied_buffer f) ∙ omega arith)

  recognized :
      (n max : ℕ)
      → 7 ≤ n
      → n < length (copied_buffer f)
      → WithinLimit max (length (copied_buffer f))
      → received_frame (fill_header f ++ cut n) max ≡ ok (received f (at (fill_header f) (cut n)))
  unfolding received_frame
  recognized n max h l m =
      let r = received f (at (fill_header f) (cut n)) in
      let size = length-cut n h l in
      let long_enough : ltb (length (fill_header f ++ cut n)) 7 ≡ false = ground (arith, size) in
      let incomplete : complete r ≡ false =
        unfold complete total_size in ground (arith, size, sizes) in
      rw
        (
          long_enough,
          (Reads-header f (channel-lt f v) (omega (arith, sizes))).run [] (cut n)
              (omega (arith, size)),
          received_frame,
        )
        (check-incomplete max r (subst (WithinLimit max) sizes m) incomplete)

  -- A frame of which the header is there and the end is not, within the limit on frames: the
  -- constructor accepts it as incomplete, and knows the size of the whole frame.
  pub partial-copied_buffer :
      (n max : ℕ)
      → 7 ≤ n
      → n < length (copied_buffer f)
      → WithinLimit max (length (copied_buffer f))
      → (r : ReceivedFrame) × (received_frame (take n (copied_buffer f)) max ≡ ok r)
        × (complete r ≡ false)
        × (header r ≡ true)
        × (total_size r ≡ length (copied_buffer f))
  partial-copied_buffer n max h l m =
      let r = received f (at (fill_header f) (cut n)) in
      let size = length-cut n h l in
      let incomplete : complete r ≡ false =
        unfold complete total_size in ground (arith, size, sizes) in
      (
        r,
        rw (cut_lem n h) (recognized n max h l m),
        incomplete,
        unfold header in ground (arith, size),
        unfold total_size in omega (arith, sizes),
      )
