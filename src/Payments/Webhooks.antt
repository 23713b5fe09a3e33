-- ===== src/Payments/Webhooks.antt =====
-- backend/app/payments/webhooks.py and api/v1/webhooks.py: a delivery of Razorpay's webhook, up to the
-- service. HMAC-SHA256 in hexadecimal and `json.loads` are arguments. A field of a type that Razorpay
-- does not document for it is taken to end in an exception, like a dict that is none.
pub mod Deliveries
use Prim.Native.String.{◌++◌ as ◌+++◌}
use Prim.Native.Char.{code}
use mathlib.Core.Option
use revenue_ai.Base.{
  ℕ, ltb, String, str_eq, Bool, true, false, ◌&&◌, ◌||◌, Option, none, some, or_else, ℤ,
  if◌then◌else◌, not,
}
use revenue_ai.Json.{dict_get, Json, null, boolean, number, str, array, object, Fields, end, get}
use revenue_ai.Services.Webhook.{ParsedWebhookEvent, ProcessStatus, process_webhook_event}
use revenue_ai.Store.Models.{CorrelationId, given}
use revenue_ai.Store.Session.{Action, pure, ◌>>=◌}

abbrev pub is_ascii : String → Bool
is_ascii String.[] = true
is_ascii (String.◌∷◌ c s) = ltb (code c) 128 && is_ascii s

-- `hmac.compare_digest` of two texts raises a `TypeError`, here `none`, unless both are ASCII.
abbrev pub compare_digest : String → String → Option Bool
compare_digest a b = if is_ascii a && is_ascii b then some (str_eq a b) else none

-- what `json.loads` of the raw body gives
pub data Loaded : Type 0 where
  loaded : Json → Loaded
  decode_error other_error : Loaded

abbrev pub as_text : Json → Option (Option String)
as_text null = some none
as_text (str s) = some (some s)
as_text _ = none

abbrev pub as_amount : Json → Option (Option ℤ)
as_amount null = some none
as_amount (number n) = some (some n)
as_amount _ = none

-- `payload.get("payload", {}).get(name, {}).get("entity", {})`
unfoldable pub entity_of : String → Json → Option Json
entity_of name payload = Option.bind (dict_get "payload" (object end) payload) λ inner.
    Option.bind (dict_get name (object end) inner) λ part. dict_get "entity" (object end) part

abbrev pub payload_key : String → Option String → Option String → String
payload_key event_type link_id payment_id =
    event_type +++ (":" +++ (or_else link_id "" +++ (":" +++ or_else payment_id "")))

-- `build_dedup_key`, without the source of the key, on the parts that the payload gives; an empty
-- header is like none
unfoldable pub build_dedup_key : String → Option String → Option String → Option String → String
build_dedup_key event_type link_id payment_id none = payload_key event_type link_id payment_id
build_dedup_key event_type link_id payment_id (some event_id) =
    if str_eq event_id ""
    then payload_key event_type link_id payment_id
    else "event_id:" +++ event_id

unfoldable pub parse_event : Json → Option String → Option ParsedWebhookEvent
parse_event payload event_id = Option.bind (dict_get "event" (str "") payload) λ event_value.
    Option.bind (as_text event_value) λ event_type.
      Option.bind (entity_of "payment_link" payload) λ link.
        Option.bind (entity_of "payment" payload) λ paid.
          Option.bind (Option.bind (dict_get "id" null link) as_text) λ link_id.
            Option.bind (Option.bind (dict_get "status" null link) as_text) λ status.
              Option.bind (Option.bind (dict_get "amount_paid" null link) as_amount) λ amount_paid.
                Option.map
                  (λ payment_id. record {
                    event_type = or_else event_type "";
                    payment_link_id = link_id;
                    payment_link_status = status;
                    amount_paid = amount_paid;
                    payment_id = payment_id;
                    dedup_key = build_dedup_key (or_else event_type "") link_id payment_id event_id;
                  })
                  (Option.bind (dict_get "id" null paid) as_text)

-- A delivery: the raw body, the signature header (empty without one) and the event id header.
pub record Delivery : Type 0 where
  pub raw_body : String
  pub signature : String
  pub event_id : Option String

-- the answer to a delivery: a status code of the HTTP error, what the service did, or an exception
pub data Receipt : Type 0 where
  rejected : ℕ → Receipt
  acknowledged : ProcessStatus → Receipt
  crashed : Receipt

module _ (hmac_hex : String → String → String) (loads : String → Loaded) where
  unfoldable pub verify_signature : Delivery → String → Option Bool
  verify_signature d secret =
      if str_eq secret "" || str_eq d.signature ""
      then some false
      else compare_digest (hmac_hex secret d.raw_body) d.signature

  -- `get_correlation_id() or event.dedup_key`
  abbrev pub correlation_of : Option CorrelationId → ParsedWebhookEvent → CorrelationId
  correlation_of (some c) event = c
  correlation_of none event = given event.dedup_key

  abbrev pub process_parsed : Option CorrelationId → Option ParsedWebhookEvent → Action Receipt
  process_parsed context none = pure crashed
  process_parsed context (some event) =
      process_webhook_event event (correlation_of context event) >>= λ status.
      pure (acknowledged status)

  abbrev pub process_loaded : Option CorrelationId → Option String → Loaded → Action Receipt
  process_loaded context event_id decode_error = pure (rejected 400)
  process_loaded context event_id other_error = pure crashed
  process_loaded context event_id (loaded payload) =
      process_parsed context (parse_event payload event_id)

  abbrev pub process_verified : Option CorrelationId → Delivery → Option Bool → Action Receipt
  process_verified context d none = pure crashed
  process_verified context d (some false) = pure (rejected 401)
  process_verified context d (some true) = process_loaded context d.event_id (loads d.raw_body)

  unfoldable pub receive_razorpay_webhook :
      String → Option CorrelationId → Delivery → Action Receipt
  receive_razorpay_webhook secret context d = process_verified context d (verify_signature d secret)
