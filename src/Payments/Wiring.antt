-- ===== src/Payments/Wiring.antt =====
-- backend/app/payments/dependencies.py: the provider that the application uses. A provider that is
-- chosen is cached until the shutdown closes it.
pub mod Unconfigured
use revenue_ai.Base.{String, str_eq, ◌||◌, Option, none, some, if◌then◌else◌, Bool, true, false}
use revenue_ai.Domain.Providers.{
  PaymentProvider, PaymentProviderError, PaymentProviderErrorKind, ProviderReply, refused,
}
use revenue_ai.Payments.Razorpay.{
  Constructed, constructed, not_constructed, ConstructError, construct, error,
}

-- the settings that choose the provider
pub record RazorpaySettings : Type 0 where
  pub razorpay_key_id : String
  pub razorpay_key_secret : String
  pub razorpay_mode : String

pub data ChosenProvider : Type 0 where
  unconfigured razorpay : ChosenProvider

pub data Choice : Type 0 where
  chosen : ChosenProvider → Choice
  refused_to_run : ConstructError → Choice

abbrev pub choice_of : Constructed → Choice
choice_of constructed = chosen razorpay
choice_of (not_constructed e) = refused_to_run e

-- the body of `get_payment_provider`, which runs where nothing is cached
unfoldable pub choose_provider : RazorpaySettings → Choice
choose_provider s =
    if str_eq s.razorpay_key_id "" || str_eq s.razorpay_key_secret ""
    then chosen unconfigured
    else choice_of (construct s.razorpay_mode s.razorpay_key_id s.razorpay_key_secret)

-- `lru_cache` keeps what was returned, and no exception.
abbrev pub cache_choice : Choice → Choice × Option ChosenProvider
cache_choice (chosen p) = (chosen p, some p)
cache_choice (refused_to_run e) = (refused_to_run e, none)

unfoldable pub get_payment_provider :
    RazorpaySettings → Option ChosenProvider → Choice × Option ChosenProvider
get_payment_provider s (some p) = (chosen p, some p)
get_payment_provider s none = cache_choice (choose_provider s)

-- whether a provider's resources were released, and the cache after it
unfoldable pub close_payment_provider : Option ChosenProvider → Bool × Option ChosenProvider
close_payment_provider none = (false, none)
close_payment_provider (some p) = (true, none)

abbrev pub not_configured : PaymentProviderError
not_configured =
    error PaymentProviderErrorKind.auth "RAZORPAY_KEY_ID / RAZORPAY_KEY_SECRET are not configured."

-- `_UnconfiguredPaymentProvider`
unfoldable pub unconfigured_provider : PaymentProvider
unconfigured_provider = record {
  create_payment_link = λ n request. refused not_configured;
  find_payment_link_by_reference = λ n reference. refused not_configured;
}
