-- ===== src/Wager/Quiet.antt =====
-- internal/app/wager/service.go: the calls that write transactions and events, on the accounts.
use junglegaming_backend_cha.Base.{true, false, if◌then◌else◌}
use junglegaming_backend_cha.Store.{Db}
use junglegaming_backend_cha.Store.Quiet.{
  Quiet-insert_event, Quiet-wake_dependents, Quiet-update_transaction, Quiet-draw,
}
use junglegaming_backend_cha.AppErr.{Error}
use junglegaming_backend_cha.Events.{EventData, Envelope}
use junglegaming_backend_cha.Wallet.{Wallet}
use junglegaming_backend_cha.Money.{Money}
use junglegaming_backend_cha.Wager.{Option, Bool, Config}
use junglegaming_backend_cha.Types.{Time, Uuid}
use Prim.Native.String.{String}
use junglegaming_backend_cha.Wager.Operation.{
  processed_data, pending_data, rejected_data, finish_processed, reject, wake,
  schedule_reference_retry, handle_reference_error,
}
use junglegaming_backend_cha.Wagering.{Transaction}
use junglegaming_backend_cha.Wager.Events.{
  text_of, enqueue, correlation_of, parse_event_id, emit, new_event,
}
use junglegaming_backend_cha.Store.Hoare.{
  lift-Ends, Quiet, Quiet-bind, Quiet-seq, Quiet-pure, Quiet-lift, Quiet-fail,
}

-- A conditional, by its branches.
pub Quiet-if : {A : Type 0} (b : Bool) {m k : Db A} → Quiet m → Quiet k → Quiet (if b then m else k)
Quiet-if true h g = h
Quiet-if false h g = g

pub Quiet-text_of : (id : Uuid) → Quiet (text_of id)
unfolding text_of
Quiet-text_of id = record { quiet = λ x. record { run = λ env w e. e } }

Quiet-new_event :
    (aggregate : Uuid) (correlation causation : String) (at : Time) (content : EventData)
    → Quiet (new_event aggregate correlation causation at content)
unfolding new_event
Quiet-new_event aggregate correlation causation at content = Quiet-seq (Quiet-lift _) (
    Quiet-seq (Quiet-lift _) (
      Quiet-seq (Quiet-lift _) (
        Quiet-seq (Quiet-lift _) (
          Quiet-bind Quiet-draw (λ id.
            Quiet-bind (Quiet-text_of _)
              (λ a. Quiet-bind (Quiet-text_of _) (λ b. Quiet-pure _)))))))

Quiet-parse_event_id : (text : String) → Quiet (parse_event_id text)
unfolding parse_event_id
Quiet-parse_event_id text = record { quiet = λ x. record { run = λ env w e. lift-Ends _ x w e } }

Quiet-enqueue : (aggregate : Uuid) (e : Envelope) → Quiet (enqueue aggregate e)
unfolding enqueue
Quiet-enqueue aggregate e = Quiet-bind (Quiet-parse_event_id _) (λ id. Quiet-insert_event _)

pub Quiet-emit :
    (aggregate : Uuid) (correlation : String) (causation : Uuid) (now : Time) (content : EventData)
    → Quiet (emit aggregate correlation causation now content)
unfolding emit
Quiet-emit aggregate correlation causation now content =
    Quiet-bind (Quiet-text_of _)
      (λ c. Quiet-bind (Quiet-new_event _ _ _ _ _) (λ e. Quiet-enqueue _ _))

pub Quiet-correlation_of : (c : String) (id : Uuid) → Quiet (correlation_of c id)
unfolding correlation_of
Quiet-correlation_of c id = Quiet-if _ (Quiet-text_of id) (Quiet-pure c)

Quiet-wake : (t : Transaction) (now : Time) → Quiet (wake t now)
unfolding wake
Quiet-wake t now =
    Quiet-if _ (Quiet-seq (Quiet-wake_dependents _ _ _) (Quiet-pure _)) (Quiet-pure _)

pub Quiet-finish_processed :
    (t : Transaction) (balance : Money) (now : Time) (c : String)
    → Quiet (finish_processed t balance now c)
unfolding finish_processed processed_data
Quiet-finish_processed t balance now c = Quiet-bind (Quiet-lift _) (λ u.
    Quiet-seq (Quiet-update_transaction u) (
      Quiet-bind
        (Quiet-bind (Quiet-text_of _) (λ a.
          Quiet-bind (Quiet-text_of _) (λ b. Quiet-bind (Quiet-text_of _) (λ d. Quiet-pure _))))
        (λ content.
          Quiet-seq (Quiet-emit _ _ _ _ _) (Quiet-seq (Quiet-wake u now) (Quiet-pure _)))))

pub Quiet-reject :
    (t : Transaction) (w : Option Wallet) (code : String) (now : Time) (c : String)
    → Quiet (reject t w code now c)
unfolding reject rejected_data
Quiet-reject t w code now c = Quiet-bind (Quiet-lift _) (λ u.
    Quiet-seq (Quiet-update_transaction u) (
      Quiet-bind
        (Quiet-bind (Quiet-text_of _) (λ a.
          Quiet-bind (Quiet-text_of _) (λ b. Quiet-bind (Quiet-text_of _) (λ d. Quiet-pure _))))
        (λ content. Quiet-seq (Quiet-emit _ _ _ _ _) (Quiet-pure _))))

Quiet-schedule_reference_retry :
    (config : Config) (t : Transaction) (now : Time) (c : String)
    → Quiet (schedule_reference_retry config t now c)
unfolding schedule_reference_retry pending_data
Quiet-schedule_reference_retry config t now c = Quiet-if _ (Quiet-reject _ _ _ _ _) (
    Quiet-bind (Quiet-lift _) (λ parked. Quiet-bind (Quiet-lift _) (λ u.
      Quiet-seq (Quiet-update_transaction u) (
        Quiet-bind (Quiet-bind (Quiet-text_of _) (λ a. Quiet-pure _))
          (λ content. Quiet-seq (Quiet-emit _ _ _ _ _) (Quiet-pure _))))))

pub Quiet-handle_reference_error :
    (config : Config) (t : Transaction) (w : Wallet) (e : Error) (now : Time) (c : String)
    → Quiet (handle_reference_error config t w e now c)
unfolding handle_reference_error
Quiet-handle_reference_error config t w e now c =
    Quiet-if _ (Quiet-schedule_reference_retry _ _ _ _)
      (Quiet-if _ (Quiet-fail e) (Quiet-reject _ _ _ _ _))
