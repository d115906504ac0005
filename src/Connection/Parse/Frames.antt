-- ===== src/Connection/Parse/Frames.antt =====
-- The loop of `ConnectionImpl::parse` over a buffer of written frames, the last of them cut anywhere.
use amqp_cpp.Base.{
  ℕ, suc, ◌+◌, ◌-◌, ◌^◌, ◌<◌, ◌≤◌, ◌≡◌, refl, ap, ◌∙◌, true, false, ltb, lt→ltb, if◌then◌else◌,
  List, [], ◌∷◌, ◌++◌, length, take, Option, none, some, length-append, length-take, append_assoc,
  append-nil, Bool-cases, inl, inr, drop-length-append, arith,
}
use amqp_cpp.Wire.{Exception}
use amqp_cpp.Frame.{Frame, copied_buffer}
use amqp_cpp.Frame.Size.{IsValidFrame, IsWrittenFrame, length-copied_parts}
use amqp_cpp.Frame.Received.{total_size}
use amqp_cpp.Frame.Parse.{WithinLimit, parse-copied_buffer}
use amqp_cpp.Frame.Partial.{short_buffer, partial-copied_buffer}
use amqp_cpp.Connection.Parse
use amqp_cpp.Connection.Parse.{Endpoint, recognized, parse_loop, parse}

abbrev pub all_bytes : List Frame → List ℕ
all_bytes [] = []
all_bytes (f ∷ fs) = copied_buffer f ++ all_bytes fs

-- A frame that its class can hold and that the limit in force admits.
abbrev pub Admitted : ℕ → Frame → Type 0
Admitted max f =
    IsValidFrame f
    × IsWrittenFrame f
    × (length (copied_buffer f) < 2 ^ 32)
    × WithinLimit max (length (copied_buffer f))

module _ {ℓ} {S : Type ℓ} (c : Endpoint S) where
  -- The handlers, one after the other.
  abbrev pub run : List Frame → S → S
  run [] s = s
  run (f ∷ fs) s = run fs (c.process f s).0

  -- Each frame is admitted when its turn comes, and its handler does not throw.
  abbrev pub Runs : List Frame → S → Type 0
  Runs [] s = Unit {0}
  Runs (f ∷ fs) s =
      Admitted (c.max_frame s) f × ((c.process f s).1 ≡ none) × Runs fs (c.process f s).0

  handled_lem :
      (next : S → Option (S × ℕ)) (processed : ℕ) (r : S × Option Exception)
      → r.1 ≡ none
      → Parse.handled c next processed r ≡ next r.0
  handled_lem next processed (s, none) e = refl
  handled_lem next processed (s, some x) e = cc

  in_front :
      (front more : List ℕ) → 0 < length more → ltb (length front) (length (front ++ more)) ≡ true
  in_front front more h = lt→ltb _ _ (omega (arith, length-append front more))

  -- One frame at the place where the loop stands.
  loop_step :
      (n : ℕ) (front rest : List ℕ) (f : Frame) (s : S)
      → Admitted (c.max_frame s) f
      → (c.process f s).1 ≡ none
      → length (copied_buffer f ++ rest) < 2 ^ 64
      → parse_loop c (suc n) (front ++ (copied_buffer f ++ rest)) (length front) s
        ≡ parse_loop c n
            (front ++ (copied_buffer f ++ rest))
            (length front + length (copied_buffer f))
            (c.process f s).0
  unfolding parse_loop
  loop_step n front rest f s a e b =
      let (r, made, done, size, read) =
        parse-copied_buffer f rest (c.max_frame s) a.0 a.1 a.2 b a.3 in
      rw
        (
          in_front front (copied_buffer f ++ rest)
              (omega (arith, length-append (copied_buffer f) rest, length-copied_parts f)),
          drop-length-append front (copied_buffer f ++ rest),
          made,
          recognized,
          done,
          read,
        )
        (handled_lem
            (λ s'.
              parse_loop c n (front ++ (copied_buffer f ++ rest)) (length front + total_size r) s')
            (length front) (c.process f s) e
          ∙ ap
              (λ m.
                parse_loop c n (front ++ (copied_buffer f ++ rest)) (length front + m)
                  (c.process f s).0)
              size)

  loop_frames :
      (n : ℕ) (fs : List Frame) (front rest : List ℕ) (s : S)
      → Runs fs s
      → length (all_bytes fs ++ rest) < 2 ^ 64
      → parse_loop c (length fs + n) (front ++ (all_bytes fs ++ rest)) (length front) s
        ≡ parse_loop c n
            ((front ++ all_bytes fs) ++ rest)
            (length (front ++ all_bytes fs))
            (run fs s)
  loop_frames n [] front rest s a b = let e : 0 + n ≡ n = omega arith in rw (e, append-nil front)
  loop_frames n (f ∷ fs) front rest s a b =
      let bytes = copied_buffer f in
      let more = all_bytes fs ++ rest in
      let fuel : suc (length fs) + n ≡ suc (length fs + n) = omega arith in
      let cut = append_assoc bytes (all_bytes fs) rest in
      let b' : length (bytes ++ more) < 2 ^ 64 = rw (← cut) b in
      let step = loop_step (length fs + n) front more f s a.0 a.1 b' in
      let ih =
        loop_frames n fs (front ++ bytes) rest (c.process f s).0 a.2
          (omega (arith, length-append bytes more, b')) in
      rw (fuel, cut, step, ← length-append front bytes, ← append_assoc front bytes more)
        (ih ∙ rw (append_assoc front bytes (all_bytes fs)))

  loop_end :
      (n : ℕ) (front : List ℕ) (s : S)
      → parse_loop c (suc n) front (length front) s
        ≡ some (c.finish (c.set_expected 7 s), length front)
  unfolding parse_loop
  loop_end n front s = let e : ltb (length front) (length front) ≡ false = ground arith in rw e

  loop_short :
      (n : ℕ) (front rest : List ℕ) (s : S)
      → 0 < length rest
      → length rest < 7
      → parse_loop c (suc n) (front ++ rest) (length front) s
        ≡ some (c.set_expected 7 s, length front)
  unfolding parse_loop
  loop_short n front rest s h l =
      let (r, made, partial, unknown) = short_buffer rest (c.max_frame s) l in
      rw (in_front front rest h, drop-length-append front rest, made, recognized, partial, unknown)

  loop_partial :
      (n k : ℕ) (front : List ℕ) (f : Frame) (s : S)
      → Admitted (c.max_frame s) f
      → 7 ≤ k
      → k < length (copied_buffer f)
      → parse_loop c (suc n) (front ++ take k (copied_buffer f)) (length front) s
        ≡ some (c.set_expected (length (copied_buffer f)) s, length front)
  unfolding parse_loop
  loop_partial n k front f s a h l =
      let (r, made, partial, known, size) =
        partial-copied_buffer f a.0 a.1 a.2 k (c.max_frame s) h l a.3 in
      let more : 0 < length (take k (copied_buffer f)) =
        omega (arith, length-take k (copied_buffer f)) in
      rw (
        in_front front (take k (copied_buffer f)) more,
        drop-length-append front (take k (copied_buffer f)),
        made,
        recognized,
        partial,
        known,
        size,
      )

  -- The frames of a buffer are at least as many bytes, so there is fuel left when they are done.
  fuel_left : (fs : List Frame) → length fs ≤ length (all_bytes fs)
  fuel_left [] = omega arith
  fuel_left (f ∷ fs) =
      omega
        (arith, fuel_left fs, length-append (copied_buffer f) (all_bytes fs), length-copied_parts f)

  parse_from :
      (fs : List Frame) (rest : List ℕ) (s : S)
      → c.is_closed s ≡ false
      → Runs fs s
      → length (all_bytes fs ++ rest) < 2 ^ 64
      → (n : ℕ) × (parse c (all_bytes fs ++ rest) s
          ≡ parse_loop c (suc n) (all_bytes fs ++ rest) (length (all_bytes fs)) (run fs s))
  unfolding parse
  parse_from fs rest s o a b =
      let total = length (all_bytes fs ++ rest) in
      let n = total - length fs in
      let fuel : suc total ≡ length fs + suc n =
        omega (arith, fuel_left fs, length-append (all_bytes fs) rest) in
      (n, rw (o, fuel) (loop_frames (suc n) fs [] rest s a b))

  -- On an open connection a buffer that holds written frames and the beginning of another one, each
  -- within the limit in force when its turn comes and handled without an exception: every whole frame
  -- is handled once, in order, all their bytes count as processed and no more, and the connection then
  -- expects the size of the frame that is cut, or seven bytes while its header is not complete.
  pub parse-frames_and_part :
      (fs : List Frame) (f : Frame) (k : ℕ) (s : S)
      → c.is_closed s ≡ false
      → Runs fs s
      → Admitted (c.max_frame (run fs s)) f
      → 0 < k
      → k < length (copied_buffer f)
      → length (all_bytes fs ++ take k (copied_buffer f)) < 2 ^ 64
      → parse c (all_bytes fs ++ take k (copied_buffer f)) s
        ≡ some (
          c.set_expected (if ltb k 7 then 7 else length (copied_buffer f)) (run fs s),
          length (all_bytes fs),
        )
  parse-frames_and_part fs f k s o a b h l m =
      let (n, start) = parse_from fs (take k (copied_buffer f)) s o a m in
      let cut = length-take k (copied_buffer f) in
      elim (Bool-cases (ltb k 7)) [
        | inl short ↦ simp short (
            start
            ∙ loop_short n (all_bytes fs) (take k (copied_buffer f)) (run fs s) (omega (arith, cut))
                (ground (arith, cut)))
        | inr known ↦
            simp known (start ∙ loop_partial n k (all_bytes fs) f (run fs s) b (ground arith) l)
      ]

  -- A buffer of whole frames is processed to its end, each frame once and in order.
  pub parse-frames :
      (fs : List Frame) (s : S)
      → c.is_closed s ≡ false
      → Runs fs s
      → length (all_bytes fs) < 2 ^ 64
      → parse c (all_bytes fs) s
        ≡ some (c.finish (c.set_expected 7 (run fs s)), length (all_bytes fs))
  parse-frames fs s o a b =
      let (n, start) = parse_from fs [] s o a (rw (append-nil (all_bytes fs)) b) in
      (rw append-nil at start) ∙ loop_end n (all_bytes fs) (run fs s)
