-- ===== src/Provider/Sends.antt =====
-- The calls of the payment provider along an action, and the values that are returned on the way
-- (backend/app/services/execution_service.py).
use revenue_ai.Services.Execution.{call_create}
use revenue_ai.Provider.Frames.{frame}
use revenue_ai.Provider.Quiet.{Preserves}
use revenue_ai.Store.Session.{
  Action, Result, Session, ok, bind_result, ◌>>=◌, err, Error, integrity_error, or_raise,
}
use revenue_ai.Store.Models.{Payment}
use revenue_ai.Domain.Providers.{
  CreatePaymentLinkRequest, PaymentProvider, ProviderReply, PaymentLinkSnapshot,
}
use revenue_ai.Services.Settings.{load_payment}
use revenue_ai.Base.{
  ◌==◌, ℕ, if◌then◌else◌, true, false, refl, ◌∷◌, ◌≡◌, ◌⊎◌, List, Bool, inl, some, ap, subst, ◌∙◌,
  Option, find, none, inr, length,
}

-- nothing was sent, or one request, which satisfies `P`
abbrev pub Sent :
    (CreatePaymentLinkRequest → Type 0)
    → List CreatePaymentLinkRequest
    → List CreatePaymentLinkRequest
    → Type 0
Sent P before after =
    (after ≡ before) ⊎ ((r : CreatePaymentLinkRequest) × (after ≡ r ∷ before) × P r)

-- an action on the payments `payments` that sends at most one request
pub record Sends {A : Type 0} (P : CreatePaymentLinkRequest → Type 0) (payments : List Payment)
    (m : Action A) : Type 0 where
  pub at : (s : Session) → s.work.payments ≡ payments → Sent P s.sent (m s).1.sent

-- the values that an action returns on these payments
pub record Gives {A : Type 0} (Q : A → Type 0) (payments : List Payment) (m : Action A)
    : Type 0 where
  pub at : (s : Session) (a : A) → s.work.payments ≡ payments → (m s).0 ≡ ok a → Q a

module _ {A : Type 0} {P : CreatePaymentLinkRequest → Type 0} {payments : List Payment} where
  pub Sends-quiet : (m : Action A) → Preserves frame m → Sends P payments m
  Sends-quiet m k = record { at = λ s h. inl (ap (λ f. f.0) (k.at s)) }

  pub Sends-if :
      (b : Bool) (m n : Action A)
      → (b ≡ true → Sends P payments m)
      → Sends P payments n
      → Sends P payments (if b then m else n)
  Sends-if true m n km kn = km refl
  Sends-if false m n km kn = kn

module _ {A B : Type 0} {P : CreatePaymentLinkRequest → Type 0} {payments : List Payment} where
  bind_result-Sent :
      (f : A → Action B) (r : Result A) (s : Session)
      → ((a : A) → r ≡ ok a → Sends P payments (f a))
      → s.work.payments ≡ payments
      → Sent P s.sent (bind_result r f s).1.sent
  bind_result-Sent f (ok a) s k h = (k a refl).at s h
  bind_result-Sent f (err e) s k h = inl refl

  -- an action that sends nothing and returns what satisfies `Q`, and then another
  pub Sends-with :
      {Q : A → Type 0} (m : Action A) (f : A → Action B)
      → Preserves frame m
      → Gives Q payments m
      → ((a : A) → Q a → Sends P payments (f a))
      → Sends P payments (m >>= f)
  Sends-with m f km gm kf = record {
    at = λ s h.
        subst (λ before. Sent P before (bind_result (m s).0 f (m s).1).1.sent)
          (ap (λ x. x.0) (km.at s))
          (bind_result-Sent f (m s).0 (m s).1 (λ a e. kf a (gm.at s a h e))
            (ap (λ x. x.1) (km.at s) ∙ h));
  }

  pub Sends-then :
      (m : Action A) (f : A → Action B)
      → Preserves frame m
      → ((a : A) → Sends P payments (f a))
      → Sends P payments (m >>= f)
  Sends-then m f km kf =
      Sends-with {Q = λ a. Unit} m f km (record { at = λ s a h e. tt }) (λ a q. kf a)

module _ {B : Type 0} {P : CreatePaymentLinkRequest → Type 0} {payments : List Payment} where
  -- the call itself, and what is done with its answer
  pub Sends-call :
      (provider : PaymentProvider) (r : CreatePaymentLinkRequest)
      (f : ProviderReply PaymentLinkSnapshot → Action B)
      → P r
      → ((answer : ProviderReply PaymentLinkSnapshot) → Preserves frame (f answer))
      → Sends P payments (call_create provider r >>= f)
  unfolding call_create
  Sends-call provider r f pr kf = record {
    at = λ s h. inr (
      r,
      ap (λ x. x.0)
          ((kf (provider.create_payment_link (length s.sent) r)).at
            (record s { sent = r ∷ s.sent })),
      pr,
    );
  }

-- the payment of an id among these payments
abbrev pub payment_of : ℕ → List Payment → Option Payment
payment_of id payments = find (λ (p : Payment). p.id == id) payments

pub or_raise_ok :
    {A : Type 0} (o : Option A) (e : Error) (s : Session) (a : A)
    → (or_raise o e s).0 ≡ ok a
    → o ≡ some a
or_raise_ok none e s a h = cc
or_raise_ok (some x) e s a h = cc

pub or_raise-Gives :
    {A : Type 0} (o : Option A) (e : Error) (payments : List Payment)
    → Gives (λ a. o ≡ some a) payments (or_raise o e)
or_raise-Gives o e payments = record { at = λ s a h r. or_raise_ok o e s a r }

pub load_payment-Gives :
    (id : ℕ) (payments : List Payment)
    → Gives (λ p. payment_of id payments ≡ some p) payments (load_payment id)
unfolding load_payment
load_payment-Gives id payments = record {
  at = λ s p h e.
      subst (λ l. payment_of id l ≡ some p) h
        (or_raise_ok (payment_of id s.work.payments) integrity_error s p e);
}
