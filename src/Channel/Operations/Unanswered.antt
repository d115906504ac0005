-- ===== src/Channel/Operations/Unanswered.antt =====
-- The declaration of an exchange with the flag `nowait`, in `ChannelImpl::declareExchange`.
use amqp_cpp.Base.{ℕ, ◌≡◌, ap, ◌∙◌, true, false, List, [], ◌∷◌, ◌++◌}
use amqp_cpp.Field.{FieldMap}
use amqp_cpp.Frame.{Frame, method_frame, synchronous}
use amqp_cpp.Connection.{ConnectionImpl}
use amqp_cpp.Channel.{ChannelImpl, succeeded, push, tell_oldest, report_success}
use amqp_cpp.Channel.Answers.{send_keeps, flush_keeps}
use amqp_cpp.Channel.Publish.{has}
use amqp_cpp.Channel.Operations.{ExchangeType, nowait}
use amqp_cpp.Channel.Operations.Perform.{Request, declare_exchange_request, perform}
use amqp_cpp.Channel.Operations.Requests.{synchronous-method_of}
use amqp_cpp.Channel.Operations.Perform.{method_of, perform-push}

push_adds :
    (d : ℕ) (c : ChannelImpl) (k : ConnectionImpl) (f : Frame)
    → ((push d c k f).0.deferred ≡ c.deferred ++ (d ∷ [])) × ((push d c k f).0.reports ≡ c.reports)
unfolding push
push_adds d c k f = let kept = send_keeps c k f in (ap (λ ds. ds ++ (d ∷ [])) kept.0, kept.1)

perform_adds :
    (d : ℕ) (c : ChannelImpl) (k : ConnectionImpl) (r : Request)
    → ((perform d c k r).0.deferred ≡ c.deferred ++ (d ∷ []))
      × ((perform d c k r).0.reports ≡ c.reports)
perform_adds d c k r = rw (perform-push d c k r) (push_adds d c k (method_frame c.id (method_of r)))

told_first :
    (chain : List ℕ) (c : ChannelImpl) (k : ConnectionImpl) (d : ℕ) (ds : List ℕ)
    → chain ≡ d ∷ ds
    → ((tell_oldest chain c k).0.deferred ≡ ds)
      × ((tell_oldest chain c k).0.reports ≡ c.reports ++ (succeeded d ∷ []))
unfolding tell_oldest
told_first [] c k d ds e = cc
told_first (x ∷ xs) c k d ds e = (
  cc,
  ap (λ r. r ++ (succeeded x ∷ [])) (flush_keeps c k).1
      ∙ ap (λ y. c.reports ++ (succeeded y ∷ [])) cc,
)

oldest_told :
    (c : ChannelImpl) (k : ConnectionImpl) (d : ℕ) (ds : List ℕ)
    → c.deferred ≡ d ∷ ds
    → ((report_success c k).0.deferred ≡ ds)
      × ((report_success c k).0.reports ≡ c.reports ++ (succeeded d ∷ []))
unfolding report_success
oldest_told c k d ds = told_first c.deferred c k d ds

-- An exchange is declared with the flag `nowait` on a channel whose chain is empty, so that the channel
-- does not wait for an answer, and then any other operation is started. The first answer that comes in
-- is reported to the object of the declaration, and the object of the other operation still waits.
pub nowait-takes_answer :
    (d d' : ℕ) (c : ChannelImpl) (k : ConnectionImpl) (name : List ℕ) (type : ExchangeType)
    (flags : ℕ) (arguments : FieldMap) (r : Request)
    → c.deferred ≡ []
    → has flags nowait ≡ true
    → let declaration = declare_exchange_request name type flags arguments in
      let (c', k', sent) = perform d c k declaration in
      let (c'', k'', sent') = perform d' c' k' r in
      let answered = (report_success c'' k'').0 in
      (synchronous (method_frame c.id (method_of declaration)) ≡ false)
      × (answered.reports ≡ c.reports ++ (succeeded d ∷ []))
      × (answered.deferred ≡ d' ∷ [])
nowait-takes_answer d d' c k name type flags arguments r e n =
    let declaration = declare_exchange_request name type flags arguments in
    let first = perform d c k declaration in
    let second = perform d' first.0 first.1 r in
    let one = perform_adds d c k declaration in
    let two = perform_adds d' first.0 first.1 r in
    let told =
      oldest_told second.0 second.1 d (d' ∷ [])
        (two.0 ∙ ap (λ ds. ds ++ (d' ∷ [])) (one.0 ∙ ap (λ ds. ds ++ (d ∷ [])) e)) in
    (
      rw (synchronous-method_of c.id declaration, n),
      told.1 ∙ ap (λ t. t ++ (succeeded d ∷ [])) (two.1 ∙ one.1),
      told.0,
    )
