-- ===== src/Api/RegisterLaws.antt =====
-- What src/apis/v1/http/notif.rs, `register_notif`, tells its caller, and the names that it gives to
-- exchanges and queues.
use hoopoe.Base.{
  ◌+◌, Text, codes, [], ◌∷◌, ◌++◌, Bool, true, false, Option, none, some, Outcome, done, panic,
  ◌>>=◌, ◌≡◌, ◌↔◌, sym, ap, ◌∙◌, arith, length, length-append, split-first, no_sep,
}
use hoopoe.Models.{mailbox_channel_error_code, Response}
use hoopoe.Errors.{Site, new_error}
use hoopoe.Broker.Actor.{BrokerMessage}
use hoopoe.Api.Register.{
  ProducerInfo, ConsumerInfo, RegisterNotif, Mail, register_notif, register_producer,
  register_consumer, registered_exchange, registered_queue, send_to_broker,
}

append_cancel : (p s t : Text) → p ++ s ≡ p ++ t → s ≡ t
append_cancel [] s t e = e
append_cancel (a ∷ p) s t e = append_cancel p s t (cc)

-- Two registrations meet in one exchange exactly if they give it the same name.
pub registered_exchange_iff :
    (given given' : Text)
    → (registered_exchange given ≡ registered_exchange given') ↔ (given ≡ given')
unfolding registered_exchange
registered_exchange_iff given given' = (λ e. cc, λ e. ap registered_exchange e)

tag_queue :
    (tag tag' queue queue' : Text)
    → registered_queue tag queue ≡ registered_queue tag' queue'
    → tag ++ b':' ∷ queue ≡ tag' ++ b':' ∷ queue'
unfolding registered_queue
tag_queue tag tag' queue queue' e = append_cancel (codes "Hoopoe.") _ _ e

-- Two consumers of tags without a colon share a queue exactly if they give the same tag and the
-- same queue.
pub registered_queue_iff :
    (tag tag' queue queue' : Text)
    → no_sep b':' tag ≡ true
    → no_sep b':' tag' ≡ true
    → (registered_queue tag queue ≡ registered_queue tag' queue')
      ↔ ((tag ≡ tag') × (queue ≡ queue'))
registered_queue_iff tag tag' queue queue' plain plain' = (
  λ e.
      let same = tag_queue tag tag' queue queue' e in
      let first = split-first b':' tag queue plain in
      let first' = split-first b':' tag' queue' plain' in
      let tags : tag ≡ tag' = cc in
      (
        tags,
        cc (
            append_cancel tag (b':' ∷ queue) (b':' ∷ queue')
              (same ∙ ap (λ t. t ++ b':' ∷ queue') (sym tags))),
      ),
  λ e. cc,
)

-- What a request left, when the broker actor takes nothing, against one when it does.
abbrev AnswersAlike : Mail → (Bool → Outcome (Mail × Response)) → Mail × Response → Type 0
AnswersAlike mail run (refused, answer) =
    (refused.inbox ≡ mail.inbox)
    × ((taken : Mail) × (run true ≡ done (taken, answer))
        × (length taken.inbox + length mail.errors ≡ length mail.inbox + length refused.errors))

sent_alike :
    (o : Outcome (BrokerMessage × Site)) (response : Response) (mail : Mail) (r : Mail × Response)
    → (o >>= λ m. done (send_to_broker false m mail, response)) ≡ done r
    → AnswersAlike mail (λ up. o >>= λ m. done (send_to_broker up m mail, response)) r
unfolding send_to_broker
sent_alike panic response mail r e = absurd (ground (arith, e))
sent_alike (done (msg, site)) response mail (refused, answer) e =
    let one_error =
      length-append mail.errors (new_error mailbox_channel_error_code site true ∷ []) in
    let one_message = length-append mail.inbox (msg ∷ []) in
    (
      ground (arith, e),
      (
        record mail { inbox = mail.inbox ++ msg ∷ [] },
        ground (arith, e),
        ground (arith, e, one_error, one_message),
      ),
    )

request_alike :
    (token : Text) (p : Option ProducerInfo) (c : Option ConsumerInfo) (mail : Mail)
    (r : Mail × Response)
    → let body : Option RegisterNotif = some (record { producer_info = p; consumer_info = c }) in
      register_notif (some token) body false mail ≡ done r
      → AnswersAlike mail (λ up. register_notif (some token) body up mail) r
unfolding register_notif
request_alike token (some info) c mail r e = sent_alike (register_producer info) _ mail r e
request_alike token none (some info) mail r e = sent_alike (register_consumer info) _ mail r e
request_alike token none none mail r e =
    (ground (arith, e), (mail, ground (arith, e), ground (arith, e)))

-- What the caller reads says nothing of the broker actor: a request that is answered while the
-- actor takes no messages leaves the mailbox as it was, and would get the same answer if the
-- message were taken. One error is recorded in the first case for each message in the second.
pub register_notif_answer :
    (token : Option Text) (body : Option RegisterNotif) (mail refused : Mail) (answer : Response)
    → register_notif token body false mail ≡ done (refused, answer)
    → (refused.inbox ≡ mail.inbox)
      × ((taken : Mail) × (register_notif token body true mail ≡ done (taken, answer))
          × (length taken.inbox + length mail.errors ≡ length mail.inbox + length refused.errors))
unfolding register_notif
register_notif_answer none body mail refused answer e = absurd (ground (arith, e))
register_notif_answer (some token) none mail refused answer e = absurd (ground (arith, e))
register_notif_answer (some token) (some req) mail refused answer e =
    request_alike token req.producer_info req.consumer_info mail (refused, answer) e
