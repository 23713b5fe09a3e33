-- ===== src/Payments/Razorpay/Errors.antt =====
-- backend/app/payments/providers/razorpay.py: which errors a creation raises. The services reconcile
-- an ambiguous creation and treat every other error as definite.
use revenue_ai.Payments.Razorpay.{
  ClientReply, HttpOutcome, create_payment_link, read_response, timed_out, classify_status,
  http_error, payment_link_from_response, responded, RazorpayApi, link_body, Response, LinkData,
  as_ambiguous,
}
use mathlib.Core.Option
use revenue_ai.Json.{Json, Fields, object, get}
use revenue_ai.Base.{
  if◌then◌else◌, ltb, ◌≤◌, ◌≡◌, ◌≢◌, ◌↔◌, ⊤, Option, none, some, arith, String, inl, ◌⊎◌, inr, refl,
}
use revenue_ai.Domain.Providers.{CreatePaymentLinkRequest, PaymentProviderErrorKind}
use revenue_ai.Payments.Razorpay.{
  ◌>>=◌, as_ambiguous, raise_classified, key, LinkData, Response, raised, describe,
}

abbrev pub error_kind : {A : Type 0} → ClientReply A → Option PaymentProviderErrorKind
error_kind (raised e) = some e.kind
error_kind other = none

-- a dict, or nothing
abbrev IsErrorDict : Option Json → Type 0
IsErrorDict none = ⊤
IsErrorDict (some (object fields)) = ⊤
IsErrorDict (some other) = ⊥

-- a body in which the client can look for the description of an error: a text that is not JSON, or
-- a dict without an `error`, or with a dict there
abbrev pub IsReadable : Option Json → Type 0
IsReadable none = ⊤
IsReadable (some (object fields)) = IsErrorDict (get "error" fields)
IsReadable (some other) = ⊥

-- the client cannot know whether the service has acted on the request
abbrev pub IsUncertain : {B : Type 0} → HttpOutcome B → Type 0
IsUncertain (timed_out e) = ⊤
IsUncertain (http_error e) = ⊤
IsUncertain (responded r) =
    (300 ≤ r.status_code)
    × IsReadable r.error_body
    × (r.status_code ≢ 400)
    × (r.status_code ≢ 401)
    × (r.status_code ≢ 403)
    × (r.status_code ≢ 422)
    × (r.status_code ≢ 429)

-- the description is found exactly in a readable body
Described : Option Json → Option String → Type 0
Described body d = ((d ≢ none) × IsReadable body) ⊎ ((d ≡ none) × ¬ IsReadable body)

describe_error :
    (fields : Fields) (text : String) (shown : Json → String) (found : Option Json)
    → get "error" fields ≡ found
    → Described (some (object fields)) (describe (some (object fields)) text shown)
unfolding Described describe Option.bind
describe_error fields text shown none e = rw e (inl ((λ h. cc), tt))
describe_error fields text shown (some (object inner)) e = rw e (inl ((λ h. cc), tt))
describe_error fields text shown (some _) e = rw e (inr (refl, λ h. h))

describe-Described :
    (body : Option Json) (text : String) (shown : Json → String)
    → Described body (describe body text shown)
unfolding Described describe Option.bind
describe-Described none text shown = inl ((λ h. cc), tt)
describe-Described (some (object fields)) text shown =
    describe_error fields text shown (get "error" fields) refl
describe-Described (some _) text shown = inr (refl, λ h. h)

-- what a creation makes of a response, by the description that was found
response_kind :
    (r : Response LinkData) (d : Option String)
    → Described r.error_body d
    → let m =
        as_ambiguous
          (if ltb r.status_code 300 then key r.body else raise_classified r.status_code d)
        >>= payment_link_from_response in
      ((error_kind m ≡ some PaymentProviderErrorKind.ambiguous) ↔ IsUncertain (responded r))
      × (error_kind m ≢ some PaymentProviderErrorKind.timeout)
      × (error_kind m ≢ some PaymentProviderErrorKind.unavailable)
unfolding Described classify_status payment_link_from_response
response_kind r none h = ground (arith, h)
response_kind r (some d) h = ground (arith, h)

outcome_kind :
    (o : HttpOutcome LinkData)
    → let m = as_ambiguous (read_response o) >>= payment_link_from_response in
      ((error_kind m ≡ some PaymentProviderErrorKind.ambiguous) ↔ IsUncertain o)
      × (error_kind m ≢ some PaymentProviderErrorKind.timeout)
      × (error_kind m ≢ some PaymentProviderErrorKind.unavailable)
unfolding read_response
outcome_kind (timed_out e) = ground arith
outcome_kind (http_error e) = ground arith
outcome_kind (responded r) =
    response_kind r (describe r.error_body r.text r.shown)
      (describe-Described r.error_body r.text r.shown)

-- The creation of a link is reported as ambiguous exactly if the client cannot know whether it took
-- place and can tell so: after a timeout, a transport error, or an error status other than 400, 401,
-- 403, 422 and 429 whose body is not JSON or a dict with a dict, or nothing, as its `error`. It never raises the timeout or unavailable errors of a read.
pub create_payment_link-ambiguous :
    (api : RazorpayApi) (request : CreatePaymentLinkRequest)
    → ((error_kind (create_payment_link api request) ≡ some PaymentProviderErrorKind.ambiguous)
        ↔ IsUncertain (api.post_payment_link (link_body request)))
      × (error_kind (create_payment_link api request) ≢ some PaymentProviderErrorKind.timeout)
      × (error_kind (create_payment_link api request) ≢ some PaymentProviderErrorKind.unavailable)
unfolding create_payment_link
create_payment_link-ambiguous api request = outcome_kind (api.post_payment_link (link_body request))
