-- ===== src/Channel/Answers.antt =====
-- The chain of deferred objects in include/amqpcpp/channelimpl.h and src/channelimpl.cpp, over whole runs
-- of a channel.
use amqp_cpp.Base.{
  ℕ, ◌≡◌, refl, sym, ap, ◌∙◌, Bool, true, false, List, [], ◌∷◌, ◌++◌, map, append_assoc, append-nil,
  arith, inl, inr, Bool-cases,
}
use amqp_cpp.Base.Int.{pos}
use amqp_cpp.Frame.Channel.{close}
use mathlib.Core.List.{map-append}
use amqp_cpp.Frame.{Frame, method_frame, channel_method}
use amqp_cpp.Connection.{ConnectionImpl}
use amqp_cpp.Channel.{
  ChannelImpl, Report, succeeded, failed, channel_failed, closing, usable, send, flush, push,
  close_channel, report_ready, report_success, tell_oldest, made_ready, report_error, error_reports,
  report_closed, detach, told_at_once, closed,
}

unfoldable pub told : Report → ℕ
told (succeeded d) = d
told (failed d) = d
told (channel_failed d) = d

-- The objects that were told, then those that wait.
unfoldable pub ledger : ChannelImpl → List ℕ
ledger c = map told c.reports ++ c.deferred

-- What happens to a channel and its connection, the objects of the operations that are started on the
-- way, and what these are told at once.
pub data Step
    : ChannelImpl × ConnectionImpl
      → List ℕ
      → List Report
      → ChannelImpl × ConnectionImpl
      → Type 0 where
  operation :
      {c : ChannelImpl} {k : ConnectionImpl} (d : ℕ) (frame : Frame)
      → Step
          (c, k)
          (d ∷ [])
          (told_at_once d (push d c k frame).2)
          ((push d c k frame).0, (push d c k frame).1)
  plain :
      {c : ChannelImpl} {k : ConnectionImpl} (frame : Frame)
      → Step (c, k) [] [] ((send c k frame).0, (send c k frame).1)
  closing_call :
      {c : ChannelImpl} {k : ConnectionImpl} (d : ℕ)
      → Step
          (c, k)
          (d ∷ [])
          (told_at_once d (close_channel d c k).2)
          ((close_channel d c k).0, (close_channel d c k).1)
  opened :
      {c : ChannelImpl} {k : ConnectionImpl}
      → Step (c, k) [] [] ((report_ready c k).0, (report_ready c k).1)
  answered :
      {c : ChannelImpl} {k : ConnectionImpl}
      → Step (c, k) [] [] ((report_success c k).0, (report_success c k).1)
  broken : {c : ChannelImpl} {k : ConnectionImpl} → Step (c, k) [] [] (report_error c, k)
  closed_by_peer : {c : ChannelImpl} {k : ConnectionImpl} → Step (c, k) [] [] (report_closed c k)
  detached : {c : ChannelImpl} {k : ConnectionImpl} → Step (c, k) [] [] (detach c, k)
  -- What other channels do to the connection, or its peer.
  elsewhere :
      {c : ChannelImpl} {k : ConnectionImpl} (k' : ConnectionImpl) → Step (c, k) [] [] (c, k')

pub data Steps
    : ChannelImpl × ConnectionImpl
      → List ℕ
      → List Report
      → ChannelImpl × ConnectionImpl
      → Type 0 where
  finished : {s : ChannelImpl × ConnectionImpl} → Steps s [] [] s
  next :
      {s t u : ChannelImpl × ConnectionImpl} {ds es : List ℕ} {now later : List Report}
      → Step s ds now t
      → Steps t es later u
      → Steps s (ds ++ es) (now ++ later) u

-- Some of a list, in its order.
pub data Sublist : List ℕ → List ℕ → Type 0 where
  none_left : Sublist [] []
  left_out : {xs ys : List ℕ} (y : ℕ) → Sublist xs ys → Sublist xs (y ∷ ys)
  taken : {xs ys : List ℕ} (x : ℕ) → Sublist xs ys → Sublist (x ∷ xs) (x ∷ ys)

Sublist-append :
    {xs ys zs ws : List ℕ} → Sublist xs ys → Sublist zs ws → Sublist (xs ++ zs) (ys ++ ws)
Sublist-append none_left t = t
Sublist-append (left_out y s) t = left_out y (Sublist-append s t)
Sublist-append (taken x s) t = taken x (Sublist-append s t)

pub send_keeps :
    (c : ChannelImpl) (k : ConnectionImpl) (frame : Frame)
    → ((send c k frame).0.deferred ≡ c.deferred) × ((send c k frame).0.reports ≡ c.reports)
unfolding send
send_keeps c k frame = ground arith

pub flush_keeps :
    (c : ChannelImpl) (k : ConnectionImpl)
    → ((flush c k).0.deferred ≡ c.deferred) × ((flush c k).0.reports ≡ c.reports)
unfolding flush
flush_keeps c k = ground arith

ledger_of :
    (c d : ChannelImpl) → d.deferred ≡ c.deferred → d.reports ≡ c.reports → ledger d ≡ ledger c
unfolding ledger
ledger_of c d e f = rw (e, f) refl

ledger-send :
    (c : ChannelImpl) (k : ConnectionImpl) (frame : Frame) → ledger (send c k frame).0 ≡ ledger c
ledger-send c k frame = let s = send_keeps c k frame in ledger_of c _ s.0 s.1

ledger_add :
    (c : ChannelImpl) (d : ℕ)
    → ledger (record c { deferred = c.deferred ++ (d ∷ []) }) ≡ ledger c ++ (d ∷ [])
unfolding ledger
ledger_add c d = sym (append_assoc (map told c.reports) c.deferred (d ∷ []))

ledger-push :
    (d : ℕ) (c : ChannelImpl) (k : ConnectionImpl) (frame : Frame)
    → ledger (push d c k frame).0 ≡ ledger c ++ (d ∷ [])
unfolding push
ledger-push d c k frame =
    ledger_add (send c k frame).0 d ∙ ap (λ l. l ++ (d ∷ [])) (ledger-send c k frame)

closing_ledger : (c : ChannelImpl) → ledger (record c { state = closing }) ≡ ledger c
unfolding ledger
closing_ledger c = refl

abbrev closing_frame : ChannelImpl → Frame
closing_frame c = method_frame c.id (channel_method (close (pos 0) [] (pos 0) (pos 0)))

ledger-close_channel :
    (d : ℕ) (c : ChannelImpl) (k : ConnectionImpl)
    → ledger (close_channel d c k).0 ≡ ledger c ++ (d ∷ [])
unfolding close_channel
ledger-close_channel d c k = elim (Bool-cases (usable c)) [
  | inl u ↦ simp u (elim (Bool-cases (push d c k (closing_frame c)).2) [
    | inl s ↦
        simp s
          (closing_ledger (push d c k (closing_frame c)).0 ∙ ledger-push d c k (closing_frame c))
    | inr s ↦ simp s (ledger-push d c k (closing_frame c))
  ])
  | inr u ↦ simp u (ledger_add c d)
]

answer_ledger :
    (d : ℕ) (ds : List ℕ) (c b : ChannelImpl)
    → b.reports ≡ c.reports
    → c.deferred ≡ d ∷ ds
    → ledger (record b { deferred = ds; reports = b.reports ++ (succeeded d ∷ []) }) ≡ ledger c
unfolding ledger told
answer_ledger d ds c b e w =
    rw (w, e, map-append told c.reports (succeeded d ∷ []))
      (append_assoc (map told c.reports) (d ∷ []) ds)

ledger-tell_oldest :
    (ds : List ℕ) (c : ChannelImpl) (k : ConnectionImpl)
    → c.deferred ≡ ds
    → ledger (tell_oldest ds c k).0 ≡ ledger c
unfolding tell_oldest
ledger-tell_oldest [] c k e = refl
ledger-tell_oldest (d ∷ ds) c k e = answer_ledger d ds c (flush c k).0 (flush_keeps c k).1 e

ledger-report_success :
    (c : ChannelImpl) (k : ConnectionImpl) → ledger (report_success c k).0 ≡ ledger c
unfolding report_success
ledger-report_success c k = ledger-tell_oldest c.deferred c k refl

told-channel_failed : (ds : List ℕ) → map told (map channel_failed ds) ≡ ds
unfolding told
told-channel_failed [] = refl
told-channel_failed (d ∷ ds) = ap (λ l. d ∷ l) (told-channel_failed ds)

told-error_reports : (ds : List ℕ) → map told (error_reports ds) ≡ ds
unfolding error_reports told
told-error_reports [] = refl
told-error_reports (d ∷ ds) = ap (λ l. d ∷ l) (told-channel_failed ds)

ledger-report_error : (c : ChannelImpl) → ledger (report_error c) ≡ ledger c
unfolding report_error ledger
ledger-report_error c =
    append-nil _
    ∙ map-append told c.reports (error_reports c.deferred)
    ∙ ap (λ l. map told c.reports ++ l) (told-error_reports c.deferred)

ledger-report_ready :
    (c : ChannelImpl) (k : ConnectionImpl) → ledger (report_ready c k).0 ≡ ledger c
unfolding report_ready
ledger-report_ready c k =
    let s = flush_keeps (record c { state = made_ready c.state }) k in ledger_of c _ s.0 s.1

ledger-report_closed :
    (c : ChannelImpl) (k : ConnectionImpl) → ledger (report_closed c k).0 ≡ ledger c
unfolding report_closed
ledger-report_closed c k =
    let c' : ChannelImpl = record c { state = closed } in
    ledger-report_error (report_success c' k).0
    ∙ ledger-report_success c' k
    ∙ ledger_of c c' refl refl

ledger-detach : (c : ChannelImpl) → ledger (detach c) ≡ ledger c
unfolding detach
ledger-detach c = ledger_of c _ refl refl

ledger-Step :
    {s t : ChannelImpl × ConnectionImpl} {ds : List ℕ} {now : List Report}
    → Step s ds now t
    → ledger t.0 ≡ ledger s.0 ++ ds
ledger-Step (operation d frame) = ledger-push d _ _ frame
ledger-Step (plain frame) = ledger-send _ _ frame ∙ sym (append-nil _)
ledger-Step (closing_call d) = ledger-close_channel d _ _
ledger-Step opened = ledger-report_ready _ _ ∙ sym (append-nil _)
ledger-Step answered = ledger-report_success _ _ ∙ sym (append-nil _)
ledger-Step broken = ledger-report_error _ ∙ sym (append-nil _)
ledger-Step closed_by_peer = ledger-report_closed _ _ ∙ sym (append-nil _)
ledger-Step detached = ledger-detach _ ∙ sym (append-nil _)
ledger-Step (elsewhere k) = sym (append-nil _)

at_once : (d : ℕ) (sent : Bool) → Sublist (map told (told_at_once d sent)) (d ∷ [])
unfolding told_at_once told
at_once d true = left_out d none_left
at_once d false = taken d none_left

at_once-Step :
    {s t : ChannelImpl × ConnectionImpl} {ds : List ℕ} {now : List Report}
    → Step s ds now t
    → Sublist (map told now) ds
at_once-Step (operation d frame) = at_once d _
at_once-Step (plain frame) = none_left
at_once-Step (closing_call d) = at_once d _
at_once-Step opened = none_left
at_once-Step answered = none_left
at_once-Step broken = none_left
at_once-Step closed_by_peer = none_left
at_once-Step detached = none_left
at_once-Step (elsewhere k) = none_left

joined : (a b c ds es : List ℕ) → b ≡ a ++ ds → c ≡ b ++ es → c ≡ a ++ (ds ++ es)
joined a b c ds es e f = f ∙ ap (λ l. l ++ es) e ∙ append_assoc a ds es

-- In every run of operations, frames, answers, errors, the closing by the peer, the loss of the connection
-- and its changes by others, in any order: the objects are told through the chain in the order in which
-- their operations were started, each at most once, and those that were not told yet still wait. What is
-- told at once, when an operation is started, goes to objects of these operations, to each at most once
-- and in the same order.
pub ledger-Steps :
    {s t : ChannelImpl × ConnectionImpl} {ds : List ℕ} {now : List Report}
    → Steps s ds now t
    → (ledger t.0 ≡ ledger s.0 ++ ds) × Sublist (map told now) ds
ledger-Steps finished = (sym (append-nil _), none_left)
ledger-Steps (next {now = now} {later = later} step rest) =
    let (chain, immediate) = ledger-Steps rest in
    (
      joined _ _ _ _ _ (ledger-Step step) chain,
      rw (map-append told now later) (Sublist-append (at_once-Step step) immediate),
    )
