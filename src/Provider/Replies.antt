-- ===== src/Provider/Replies.antt =====
-- backend/app/services/execution_service.py: the handling of the provider's answer.
use revenue_ai.Domain.Policy.{PolicyDecision}
use revenue_ai.Domain.Enums.{ProviderFailureCategory}
use revenue_ai.Store.Session.{modify_work}
use revenue_ai.Provider.Frames.{frame, frames}
use revenue_ai.Provider.Quiet.{Preserves, Preserves-if}
use revenue_ai.Store.Models.{RecoveryAttempt, RecoveryPaymentRequest, CorrelationId}
use revenue_ai.Services.Execution.{
  after_reconciliation, call_find, escalate_case, handle_ambiguous_creation,
  handle_definite_failure, handle_reply, insert_payment_request, record_payment_link_created,
  assign_attempt, is_ambiguous,
}
use revenue_ai.Base.{ℕ, refl, ◌++◌, [], ◌∷◌, String, Option, none, some}
use revenue_ai.Domain.Providers.{
  reply, refused, PaymentLinkSnapshot, PaymentProvider, PaymentProviderError, ProviderReply,
}

assign_attempt-frame :
    (id : ℕ) (f : RecoveryAttempt → RecoveryAttempt) → Preserves frame (assign_attempt id f)
assign_attempt-frame id f = record { at = λ s. refl }

pub escalate_case-frame :
    (id : ℕ) (reason : String) (correlation : CorrelationId) (decision : Option PolicyDecision)
    → Preserves frame (escalate_case id reason correlation decision)
unfolding escalate_case
escalate_case-frame id reason correlation decision = search (frames) depth 30

handle_definite_failure-frame :
    (id attempt : ℕ) (error : PaymentProviderError) (correlation : CorrelationId)
    (category : Option ProviderFailureCategory) (reason : Option String)
    → Preserves frame (handle_definite_failure id attempt error correlation category reason)
unfolding handle_definite_failure
handle_definite_failure-frame id attempt error correlation category reason =
    search (frames, assign_attempt-frame, escalate_case-frame) depth 30

add_request-frame :
    (r : RecoveryPaymentRequest)
    → Preserves frame
        (modify_work (λ db. record db { payment_requests = db.payment_requests ++ (r ∷ []) }))
add_request-frame r = record { at = λ s. refl }

insert_payment_request-frame :
    (r : RecoveryPaymentRequest) → Preserves frame (insert_payment_request r)
unfolding insert_payment_request
insert_payment_request-frame r = search (frames, add_request-frame) depth 30

record_payment_link_created-frame :
    (id attempt key : ℕ) (link : PaymentLinkSnapshot) (correlation : CorrelationId)
    → Preserves frame (record_payment_link_created id attempt key link correlation)
unfolding record_payment_link_created
record_payment_link_created-frame id attempt key link correlation =
    search (frames, insert_payment_request-frame, assign_attempt-frame) depth 30

call_find-frame : (provider : PaymentProvider) (key : ℕ) → Preserves frame (call_find provider key)
unfolding call_find
call_find-frame provider key = record { at = λ s. refl }

reconciled-frame :
    (id attempt key : ℕ) (error : PaymentProviderError) (correlation : CorrelationId)
    (found : Option PaymentLinkSnapshot)
    → Preserves frame (after_reconciliation id attempt key error correlation found)
unfolding after_reconciliation
reconciled-frame id attempt key error correlation none =
    handle_definite_failure-frame id attempt error correlation _ _
reconciled-frame id attempt key error correlation (some link) =
    record_payment_link_created-frame id attempt key link correlation

handle_ambiguous_creation-frame :
    (provider : PaymentProvider) (id attempt key : ℕ) (error : PaymentProviderError)
    (correlation : CorrelationId)
    → Preserves frame (handle_ambiguous_creation provider id attempt key error correlation)
unfolding handle_ambiguous_creation
handle_ambiguous_creation-frame provider id attempt key error correlation =
    search (frames, call_find-frame, reconciled-frame) depth 30

pub handle_reply-frame :
    (provider : PaymentProvider) (id attempt key : ℕ) (correlation : CorrelationId)
    (answer : ProviderReply PaymentLinkSnapshot)
    → Preserves frame (handle_reply provider id attempt key correlation answer)
unfolding handle_reply
handle_reply-frame provider id attempt key correlation (reply link) =
    record_payment_link_created-frame id attempt key link correlation
handle_reply-frame provider id attempt key correlation (refused error) =
    Preserves-if (is_ambiguous error.kind) _ _
      (handle_ambiguous_creation-frame provider id attempt key error correlation)
      (handle_definite_failure-frame id attempt error correlation none none)
