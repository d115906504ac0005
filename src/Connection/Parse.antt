-- ===== src/Connection/Parse.antt =====
-- `ConnectionImpl::parse` of src/connectionimpl.cpp, over what the loop uses of the connection. The
-- handlers of the frames are taken not to destruct the connection, so that its `Monitor` stays valid. The
-- loop recurs on fuel; `none` is running out, or a reader that does.
pub mod Frames
use amqp_cpp.Base.{
  ℕ, zero, suc, ◌+◌, Bool, ltb, if◌then◌else◌, List, length, drop, Option, none, some,
}
use amqp_cpp.Wire.{Exception, Result, ok, err, stuck, InBuffer}
use amqp_cpp.Frame.{Frame}
use amqp_cpp.Frame.Received.{
  ReceivedFrame, received_frame, complete, header, total_size, read_frame,
}

-- A connection, as the loop sees it: `process` is the handler of a frame, which may throw, and `finish`
-- is what is left to do when the whole buffer was processed.
pub record Endpoint {ℓ} (S : Type ℓ) : Type ℓ where
  pub is_closed : S → Bool
  pub max_frame : S → ℕ
  pub process : Frame → S → S × Option Exception
  pub report_error : Exception → S → S
  pub set_expected : ℕ → S → S
  pub finish : S → S

module _ {ℓ} {S : Type ℓ} (c : Endpoint S) where
  -- A frame that is complete goes to its handler, and `next` goes on behind it.
  abbrev pub handled : (S → Option (S × ℕ)) → ℕ → S × Option Exception → Option (S × ℕ)
  handled next processed (s, none) = next s
  handled next processed (s, some e) = some (c.report_error e s, processed)

  abbrev pub selected : (S → Option (S × ℕ)) → ℕ → S → Result (Frame × InBuffer) → Option (S × ℕ)
  selected next processed s (ok (f, b)) = handled next processed (c.process f s)
  selected next processed s (err e) = some (c.report_error e s, processed)
  selected next processed s stuck = none

  abbrev pub recognized :
      (ReceivedFrame → S → Option (S × ℕ)) → ℕ → S → Result ReceivedFrame → Option (S × ℕ)
  recognized next processed s (ok r) =
      if complete r
      then selected (next r) processed s (read_frame r r.position)
      else some (c.set_expected (if header r then total_size r else 7) s, processed)
  recognized next processed s (err e) = some (c.report_error e s, processed)
  recognized next processed s stuck = none

  unfoldable pub parse_loop : ℕ → List ℕ → ℕ → S → Option (S × ℕ)
  parse_loop zero buffer processed s = none
  parse_loop (suc n) buffer processed s =
      let next =
        λ (r : ReceivedFrame) (s' : S). parse_loop n buffer (processed + total_size r) s' in
      if ltb processed (length buffer)
      then recognized next processed s (received_frame (drop processed buffer) (c.max_frame s))
      else some (c.finish (c.set_expected 7 s), processed)

  unfoldable pub parse : List ℕ → S → Option (S × ℕ)
  parse buffer s =
      if c.is_closed s then some (s, 0) else parse_loop (suc (length buffer)) buffer 0 s
