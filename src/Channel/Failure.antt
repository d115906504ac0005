-- ===== src/Channel/Failure.antt =====
-- What is left of a channel after an error, or once its peer closed it: `reportError` of
-- src/channelimpl.cpp and `reportClosed` of include/amqpcpp/channelimpl.h.
use amqp_cpp.Base.{ℕ, ◌≡◌, refl, ap, ◌∙◌, true, false, not, ◌&&◌, List, [], ◌∷◌, ◌++◌, map, arith}
use amqp_cpp.Frame.{Frame}
use amqp_cpp.Connection.{ConnectionImpl}
use amqp_cpp.Channel.{
  ChannelImpl, Report, failed, channel_failed, closed, usable, waiting, send, flush, push,
  close_channel, report_ready, report_success, tell_oldest, report_error, error_reports,
  report_closed, detach, is_closed, is_closing, made_ready,
}
use amqp_cpp.Channel.Answers.{
  Step, Steps, operation, plain, closing_call, opened, answered, broken, closed_by_peer, detached,
  elsewhere, finished, next,
}

-- Closed, with no connection and nothing that waits.
abbrev IsDead : ChannelImpl → Type 0
IsDead c = (c.state ≡ closed) × (c.linked ≡ false) × (c.queue ≡ []) × (c.is_synchronous ≡ false)

send_dead :
    (c : ChannelImpl) (k : ConnectionImpl) (frame : Frame)
    → IsDead c
    → send c k frame ≡ (c, k, false)
unfolding send is_closed
send_dead c k frame h = simp h.0 refl

push-IsDead :
    (d : ℕ) (c : ChannelImpl) (k : ConnectionImpl) (frame : Frame)
    → IsDead c
    → IsDead (push d c k frame).0
unfolding push
push-IsDead d c k frame h = simp (send_dead c k frame h) h

send-IsDead :
    (c : ChannelImpl) (k : ConnectionImpl) (frame : Frame) → IsDead c → IsDead (send c k frame).0
send-IsDead c k frame h = simp (send_dead c k frame h) h

unusable : (c : ChannelImpl) → c.state ≡ closed → usable c ≡ false
unfolding usable
unusable c h =
    ap (λ s. not (is_closed s) && not (is_closing s)) h ∙ unfold is_closed is_closing in refl

close_channel-IsDead :
    (d : ℕ) (c : ChannelImpl) (k : ConnectionImpl) → IsDead c → IsDead (close_channel d c k).0
unfolding close_channel
close_channel-IsDead d c k h = simp (unusable c h.0) h

flush_unlinked :
    (c : ChannelImpl) (k : ConnectionImpl)
    → c.linked ≡ false
    → flush c k ≡ (record c { is_synchronous = false }, k, true)
unfolding flush
flush_unlinked c k l = ground arith

flush-IsDead : (c : ChannelImpl) (k : ConnectionImpl) → IsDead c → IsDead (flush c k).0
flush-IsDead c k h = rw (flush_unlinked c k h.1) (h.0, h.1, h.2, refl)

report_ready-IsDead :
    (c : ChannelImpl) (k : ConnectionImpl) → IsDead c → IsDead (report_ready c k).0
unfolding report_ready
report_ready-IsDead c k h = flush-IsDead _ k (ap made_ready h.0, h.1, h.2, h.3)

tell_oldest-IsDead :
    (chain : List ℕ) (c : ChannelImpl) (k : ConnectionImpl)
    → IsDead c
    → IsDead (tell_oldest chain c k).0
unfolding tell_oldest
tell_oldest-IsDead [] c k h = h
tell_oldest-IsDead (d ∷ ds) c k h = flush-IsDead c k h

report_error-IsDead : (c : ChannelImpl) → IsDead (report_error c)
unfolding report_error
report_error-IsDead c = (refl, refl, refl, refl)

closed-IsDead : (c : ChannelImpl) (k : ConnectionImpl) → IsDead (report_closed c k).0
unfolding report_closed
closed-IsDead c k = report_error-IsDead (report_success (record c { state = closed }) k).0

Step-IsDead :
    {s t : ChannelImpl × ConnectionImpl} {ds : List ℕ} {now : List Report}
    → Step s ds now t
    → IsDead s.0
    → IsDead t.0
unfolding report_success detach
Step-IsDead (operation d frame) h = push-IsDead d _ _ frame h
Step-IsDead (plain frame) h = send-IsDead _ _ frame h
Step-IsDead (closing_call d) h = close_channel-IsDead d _ _ h
Step-IsDead opened h = report_ready-IsDead _ _ h
Step-IsDead answered h = tell_oldest-IsDead _ _ _ h
Step-IsDead (broken {c = c}) h = report_error-IsDead c
Step-IsDead (closed_by_peer {c = c} {k = k}) h = closed-IsDead c k
Step-IsDead detached h = (h.0, refl, h.2, h.3)
Step-IsDead (elsewhere k) h = h

Steps-IsDead :
    {s t : ChannelImpl × ConnectionImpl} {ds : List ℕ} {now : List Report}
    → Steps s ds now t
    → IsDead s.0
    → IsDead t.0
Steps-IsDead finished h = h
Steps-IsDead (next step rest) h = Steps-IsDead rest (Step-IsDead step h)

waiting_dead : (c : ChannelImpl) → IsDead c → waiting c ≡ false
unfolding waiting
waiting_dead c h = simp (h.3, h.2) refl

reports_of :
    (c : ChannelImpl) (chain : List ℕ)
    → c.deferred ≡ chain
    → (report_error c).reports ≡ c.reports ++ error_reports chain
unfolding report_error
reports_of c chain e = ap (λ l. c.reports ++ error_reports l) e

-- An error tells the oldest object that waits the message of the error and every later one, in order, that
-- the channel is in error. Whatever happens to the channel afterwards, it stays closed, keeps nothing back
-- and waits for nothing; it refuses every frame and gives none to the connection.
pub report_error-final :
    {t : ChannelImpl × ConnectionImpl} {ds : List ℕ} {now : List Report} (c : ChannelImpl)
    (k : ConnectionImpl) (d : ℕ) (chain : List ℕ) (frame : Frame)
    → c.deferred ≡ d ∷ chain
    → Steps (report_error c, k) ds now t
    → ((report_error c).reports ≡ c.reports ++ (failed d ∷ map channel_failed chain))
      × (t.0.state ≡ closed)
      × (t.0.queue ≡ [])
      × (waiting t.0 ≡ false)
      × (send t.0 t.1 frame ≡ (t.0, t.1, false))
report_error-final c k d chain frame e run =
    let dead = Steps-IsDead run (report_error-IsDead c) in
    (
      unfold error_reports in reports_of c (d ∷ chain) e,
      dead.0,
      dead.2,
      waiting_dead _ dead,
      send_dead _ _ frame dead,
    )
