-- ===== src/Reports/Redaction/Clean.antt =====
-- backend/app/services/audit_export_service.py: what is left of a payload.
use revenue_ai.Reports.Redaction.{is_redacted_key, redact, redact_value}
use revenue_ai.Base.{
  Bool-cases, inl, inr, ap, String, false, ◌≡◌, ⊤, refl, arith, none, if◌then◌else◌,
}
use text.Mathlib.TextEquality.{eq_iff}
use mathlib.Core.Option
use revenue_ai.Json.{
  Json, null, boolean, number, str, array, object, Fields, Items, end, field, get,
}

module _ (lower : String → String) where
  -- no key of a dict or of a dict nested in it is redacted; the items of a list are not looked into
  mutual
    pub IsClean : Fields → Type 0
    IsClean end = ⊤
    IsClean (field key value fields) =
        (is_redacted_key lower key ≡ false) × IsCleanValue value × IsClean fields

    pub IsCleanValue : Json → Type 0
    IsCleanValue null = ⊤
    IsCleanValue (boolean b) = ⊤
    IsCleanValue (number n) = ⊤
    IsCleanValue (str s) = ⊤
    IsCleanValue (array items) = ⊤
    IsCleanValue (object fields) = IsClean fields

  mutual
    unfolding IsClean redact

    cleaned_fields : (fields : Fields) → IsClean (redact lower fields)
    cleaned_fields end = tt
    cleaned_fields (field key value fields) = elim (Bool-cases (is_redacted_key lower key)) [
      | inl secret ↦ rw secret (cleaned_fields fields)
      | inr open_key ↦ rw open_key (open_key, cleaned_value value, cleaned_fields fields)
    ]

    cleaned_value : (value : Json) → IsCleanValue (redact_value lower value)
    cleaned_value null = tt
    cleaned_value (boolean b) = tt
    cleaned_value (number n) = tt
    cleaned_value (str s) = tt
    cleaned_value (array items) = tt
    cleaned_value (object fields) = cleaned_fields fields

  mutual
    unfolding IsClean redact

    redact_clean : (fields : Fields) → IsClean fields → redact lower fields ≡ fields
    redact_clean end h = refl
    redact_clean (field key value fields) h =
        rw (h.0, redact_value_clean value h.1, redact_clean fields h.2) refl

    redact_value_clean : (value : Json) → IsCleanValue value → redact_value lower value ≡ value
    redact_value_clean null h = refl
    redact_value_clean (boolean b) h = refl
    redact_value_clean (number n) h = refl
    redact_value_clean (str s) h = refl
    redact_value_clean (array items) h = refl
    redact_value_clean (object fields) h = ap object (redact_clean fields h)

  get_redacted :
      (key : String) (fields : Fields)
      → get key (redact lower fields) ≡ (
          if is_redacted_key lower key
          then none
          else Option.map (redact_value lower) (get key fields))
  unfolding redact
  get_redacted key end = ground arith
  get_redacted key (field k value fields) =
      ground (
        arith,
        eq_iff k key,
        get_redacted key fields,
        λ (e : k ≡ key). ap (is_redacted_key lower) e,
      )

  -- A redacted payload has no credential-like key, neither in itself nor in a dict that is reached
  -- from it through dicts alone; redacting it again changes nothing; looking up a key gives nothing
  -- if the key is credential-like, and else its value redacted; and a list is kept as it is, with
  -- every key of the dicts in it.
  pub redact-IsClean :
      (fields : Fields)
      → IsClean (redact lower fields)
        × (redact lower (redact lower fields) ≡ redact lower fields)
        × ((key : String)
            → get key (redact lower fields) ≡ (
                if is_redacted_key lower key
                then none
                else Option.map (redact_value lower) (get key fields)))
        × ((items : Items) → redact_value lower (array items) ≡ array items)
  unfolding redact
  redact-IsClean fields = (
    cleaned_fields fields,
    redact_clean (redact lower fields) (cleaned_fields fields),
    (λ key. get_redacted key fields),
    (λ items. refl),
  )
