-- ===== src/Payments/Razorpay.antt =====
-- backend/app/payments/providers/razorpay.py: the client of Razorpay's REST API. What `httpx` and the
-- service answer to a request is an argument. Of the JSON body of a success the model keeps the fields
-- that the client reads, each with its documented type, and `none` where it is missing; the body of an
-- error is any JSON value, or none. Log lines are left out.
pub mod Errors
pub mod Statuses
use mathlib.Core.Option
use revenue_ai.Json.{Json, object, str, end, dict_get}
use revenue_ai.Base.{
  ℕ, zero, suc, ltb, ◌==◌, ℤ, pos, String, str_eq, Bool, true, false, not, ◌&&◌, ◌||◌, List, [],
  ◌∷◌, Option, none, some, if◌then◌else◌, or_else, any,
}
use revenue_ai.Domain.Enums.{
  PaymentStatus, RecoveryPaymentRequestStatus, link_status_value, created, partially_paid, paid,
  expired, cancelled,
}
use revenue_ai.Domain.Providers.{
  PaymentProviderError, PaymentProviderErrorKind, CreatePaymentLinkRequest, PaymentLinkSnapshot,
}

-- `RazorpayModeError`, and the `ValueError` of the constructor
pub data ConstructError : Type 0 where
  live_mode no_credentials : ConstructError

pub data Constructed : Type 0 where
  constructed : Constructed
  not_constructed : ConstructError → Constructed

-- `__init__`, by the mode and the two credentials
unfoldable pub construct : String → String → String → Constructed
construct mode key_id key_secret =
    if not (str_eq mode "test")
    then not_constructed live_mode
    else (if str_eq key_id "" || str_eq key_secret ""
        then not_constructed no_credentials
        else constructed)

-- `if not value` takes 0 like a missing value.
unfoldable pub from_unix : Option ℕ → Option ℕ
from_unix none = none
from_unix (some zero) = none
from_unix (some (suc n)) = some (suc n)

unfoldable pub map_payment_link_status : String → RecoveryPaymentRequestStatus
map_payment_link_status value =
    if str_eq value (link_status_value partially_paid)
    then partially_paid
    else (if str_eq value (link_status_value paid)
        then paid
        else (if str_eq value (link_status_value expired)
            then expired
            else (if str_eq value (link_status_value cancelled) then cancelled else created)))

-- the fields of a payment link in a body
pub record LinkData : Type 0 where
  pub id : Option String
  pub short_url : Option String
  pub status : Option String
  pub amount : Option ℤ
  pub amount_paid : Option ℤ
  pub currency : Option String
  pub reference_id : Option ℕ
  pub expire_by : Option ℕ

pub record PaymentData : Type 0 where
  pub id : Option String
  pub status : Option String
  pub amount : Option ℤ
  pub currency : Option String
  pub method : Option String

-- `body` is that of a success; `error_body` is what `response.json()` gives of an error, or `none` for
-- its `ValueError`, and `text` the start of `response.text`. `shown` is what an f-string makes of a
-- value.
pub record Response (B : Type 0) : Type 0 where
  pub status_code : ℕ
  pub body : Option B
  pub error_body : Option Json
  pub text : String
  pub shown : Json → String

-- what `client.request` returns or raises
pub data HttpOutcome (B : Type 0) : Type 0 where
  responded : Response B → HttpOutcome B
  timed_out : String → HttpOutcome B
  http_error : String → HttpOutcome B

-- `crashed` is an exception of another class: of `response.json()`, a `get`, `data[…]` or an enum's
-- value.
pub data ClientReply (A : Type 0) : Type 0 where
  returned : A → ClientReply A
  raised : PaymentProviderError → ClientReply A
  crashed : ClientReply A

infixl 5 ◌>>=◌
abbrev pub ◌>>=◌ : {A B : Type 0} → ClientReply A → (A → ClientReply B) → ClientReply B
returned a >>= f = f a
raised e >>= f = raised e
crashed >>= f = crashed

abbrev pub key : {A : Type 0} → Option A → ClientReply A
key none = crashed
key (some a) = returned a

abbrev pub error : PaymentProviderErrorKind → String → PaymentProviderError
error kind message = record { kind = kind; message = message }

-- the kind that `_classify_error_response` gives a status code
unfoldable pub classify_status : ℕ → PaymentProviderErrorKind
classify_status code =
    if code == 401 || code == 403
    then PaymentProviderErrorKind.auth
    else (if code == 429
        then PaymentProviderErrorKind.rate_limit
        else (if code == 400 || code == 422
            then PaymentProviderErrorKind.validation
            else PaymentProviderErrorKind.unavailable))

-- `body.get("error", {}).get("description", "")`, or the text; a value that is no dict has no `get`
unfoldable pub describe : Option Json → String → (Json → String) → Option String
describe none text shown = some text
describe (some body) text shown =
    Option.map shown
      (Option.bind (dict_get "error" (object end) body) λ e. dict_get "description" (str "") e)

-- `raise self._classify_error_response(response)`
abbrev pub raise_classified : {B : Type 0} → ℕ → Option String → ClientReply B
raise_classified code none = crashed
raise_classified code (some description) = raised (error (classify_status code) description)

-- `_request`; of an error's message the model keeps the varying part.
unfoldable pub read_response : {B : Type 0} → HttpOutcome B → ClientReply B
read_response (timed_out e) = raised (error PaymentProviderErrorKind.timeout e)
read_response (http_error e) = raised (error PaymentProviderErrorKind.unavailable e)
read_response (responded r) =
    if ltb r.status_code 300
    then key r.body
    else raise_classified r.status_code (describe r.error_body r.text r.shown)

unfoldable pub payment_link_from_response : LinkData → ClientReply PaymentLinkSnapshot
payment_link_from_response d = do
  id ← key d.id
  status ← key d.status
  amount ← key d.amount
  currency ← key d.currency
  returned record {
    provider_reference = id;
    short_url = d.short_url;
    status = map_payment_link_status status;
    amount = amount;
    amount_paid = or_else d.amount_paid (pos 0);
    currency = currency;
    reference_id = d.reference_id;
    expires_at = from_unix d.expire_by;
  }

pub record ProviderPaymentSnapshot : Type 0 where
  pub provider_payment_id : String
  pub status : PaymentStatus
  pub amount : ℤ
  pub currency : String
  pub method : Option String

-- `PaymentStatus(value)`
unfoldable pub payment_status_of : String → ClientReply PaymentStatus
payment_status_of value =
    if str_eq value "created"
    then returned PaymentStatus.created
    else (if str_eq value "authorized"
        then returned PaymentStatus.authorized
        else (if str_eq value "captured"
            then returned PaymentStatus.captured
            else (if str_eq value "failed"
                then returned PaymentStatus.failed
                else (if str_eq value "refunded"
                    then returned PaymentStatus.refunded
                    else crashed))))

-- the body that `create_payment_link` posts
pub record LinkBody : Type 0 where
  pub amount : ℤ
  pub currency : String
  pub reference_id : ℕ
  pub accept_partial : Bool
  pub expire_by : Option ℕ

unfoldable pub link_body : CreatePaymentLinkRequest → LinkBody
link_body request = record {
  amount = request.amount;
  currency = request.currency;
  reference_id = request.reference_id;
  accept_partial = false;
  expire_by = request.expire_by;
}

-- `except (PaymentProviderTimeoutError, PaymentProviderUnavailableError)`
abbrev pub is_uncertain : PaymentProviderErrorKind → Bool
is_uncertain PaymentProviderErrorKind.timeout = true
is_uncertain PaymentProviderErrorKind.unavailable = true
is_uncertain _ = false

abbrev pub as_ambiguous : {A : Type 0} → ClientReply A → ClientReply A
as_ambiguous (raised e) =
    if is_uncertain e.kind
    then raised (error PaymentProviderErrorKind.ambiguous e.message)
    else raised e
as_ambiguous other = other

-- The service: what each of the client's requests is answered.
pub record RazorpayApi : Type 0 where
  pub post_payment_link : LinkBody → HttpOutcome LinkData
  pub get_payment_link : String → HttpOutcome LinkData
  pub get_payment_links : ℕ → HttpOutcome (List LinkData)
  pub get_payment : String → HttpOutcome PaymentData
  pub post_notify : String → Bool → HttpOutcome (Unit {0})

abbrev pub first_link : List LinkData → ClientReply (Option PaymentLinkSnapshot)
first_link [] = returned none
first_link (d ∷ links) = do link ← payment_link_from_response d; returned (some link)

module _ (api : RazorpayApi) where
  unfoldable pub create_payment_link : CreatePaymentLinkRequest → ClientReply PaymentLinkSnapshot
  create_payment_link request = do
    d ← as_ambiguous (read_response (api.post_payment_link (link_body request)))
    payment_link_from_response d

  unfoldable pub fetch_payment_link : String → ClientReply PaymentLinkSnapshot
  fetch_payment_link provider_reference = do
    d ← read_response (api.get_payment_link provider_reference)
    payment_link_from_response d

  unfoldable pub find_payment_link_by_reference : ℕ → ClientReply (Option PaymentLinkSnapshot)
  find_payment_link_by_reference reference_id = do
    links ← read_response (api.get_payment_links reference_id)
    first_link links

  unfoldable pub fetch_payment : String → ClientReply ProviderPaymentSnapshot
  fetch_payment provider_payment_id = do
    d ← read_response (api.get_payment provider_payment_id)
    id ← key d.id
    value ← key d.status
    status ← payment_status_of value
    amount ← key d.amount
    currency ← key d.currency
    returned record {
      provider_payment_id = id;
      status = status;
      amount = amount;
      currency = currency;
      method = d.method;
    }

  -- The medium is by SMS or else by email.
  unfoldable pub notify_payment_link : String → Bool → ClientReply Bool
  notify_payment_link provider_reference by_sms = do
    done ← read_response (api.post_notify provider_reference by_sms)
    returned true
