-- ===== src/Payments/Webhooks/Deliveries.antt =====
-- backend/app/api/v1/webhooks.py: which deliveries reach the tables.
use revenue_ai.Payments.Webhooks.{
  receive_razorpay_webhook, other_error, decode_error, loaded, acknowledged,
}
use revenue_ai.Payments.Webhooks.{
  Loaded, Receipt, Delivery, acknowledged, loaded, process_loaded, verify_signature, decode_error,
  process_verified,
}
use revenue_ai.Base.{
  Bool, String, true, false, ◌≡◌, ◌≢◌, ◌⊎◌, inl, inr, refl, arith, Option, none, some,
}
use text.Mathlib.TextEquality.{eq_iff}
use revenue_ai.Json.{Json}
use revenue_ai.Store.Models.{CorrelationId}
use revenue_ai.Store.Session.{Session, Action, Result, ok}

-- the receipt of a delivery that the service has seen
abbrev pub IsAcknowledged : Result Receipt → Type 0
IsAcknowledged (ok (acknowledged status)) = Unit {0}
IsAcknowledged _ = ⊥

-- the body is signed with a secret that is not empty, and is a JSON text
abbrev pub IsAuthentic : (String → String → String) → (String → Loaded) → String → Delivery → Type 0
IsAuthentic hmac_hex loads secret d =
    (secret ≢ "")
    × (d.signature ≡ hmac_hex secret d.raw_body)
    × ((payload : Json) × (loads d.raw_body ≡ loaded payload))

module _ (hmac_hex : String → String → String) (loads : String → Loaded) where
  verify_signature_sound :
      (secret : String) (d : Delivery)
      → verify_signature hmac_hex loads d secret ≡ some true
      → (secret ≢ "") × (d.signature ≡ hmac_hex secret d.raw_body)
  unfolding verify_signature
  verify_signature_sound secret d h = ground (
    arith,
    eq_iff secret "",
    eq_iff d.signature "",
    eq_iff (hmac_hex secret d.raw_body) d.signature,
  )

  -- an authentic delivery, or one that the rest of the handler `m` does not let through
  Guarded : String → Delivery → Session → Action Receipt → Type 0
  Guarded secret d s m =
      IsAuthentic hmac_hex loads secret d ⊎ (((m s).1 ≡ s) × ¬ IsAcknowledged (m s).0)

  loaded-Guarded :
      (secret : String) (context : Option CorrelationId) (d : Delivery) (s : Session) (l : Loaded)
      → (secret ≢ "") × (d.signature ≡ hmac_hex secret d.raw_body)
      → loads d.raw_body ≡ l
      → Guarded secret d s (process_loaded hmac_hex loads context d.event_id l)
  unfolding Guarded
  loaded-Guarded secret context d s decode_error signed e = inr (refl, λ h. h)
  loaded-Guarded secret context d s other_error signed e = inr (refl, λ h. h)
  loaded-Guarded secret context d s (loaded payload) signed e =
      inl (signed.0, signed.1, (payload, e))

  verified-Guarded :
      (secret : String) (context : Option CorrelationId) (d : Delivery) (s : Session)
      (v : Option Bool)
      → verify_signature hmac_hex loads d secret ≡ v
      → Guarded secret d s (process_verified hmac_hex loads context d v)
  unfolding Guarded
  verified-Guarded secret context d s none e = inr (refl, λ h. h)
  verified-Guarded secret context d s (some false) e = inr (refl, λ h. h)
  verified-Guarded secret context d s (some true) e =
      loaded-Guarded secret context d s (loads d.raw_body) (verify_signature_sound secret d e) refl

  -- A delivery changes something of the session or is acknowledged only if it is authentic: its
  -- signature is the digest of its raw body under the secret, the secret is not empty, and the body
  -- is JSON. Any other delivery leaves the tables, and the whole session, as they are.
  pub receive_razorpay_webhook-IsAuthentic :
      (secret : String) (context : Option CorrelationId) (d : Delivery) (s : Session)
      → IsAuthentic hmac_hex loads secret d
        ⊎ (((receive_razorpay_webhook hmac_hex loads secret context d s).1 ≡ s)
            × ¬ IsAcknowledged (receive_razorpay_webhook hmac_hex loads secret context d s).0)
  unfolding receive_razorpay_webhook Guarded
  receive_razorpay_webhook-IsAuthentic secret context d s =
      verified-Guarded secret context d s (verify_signature hmac_hex loads d secret) refl
