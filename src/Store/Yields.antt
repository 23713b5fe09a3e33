-- ===== src/Store/Yields.antt =====
-- What the actions of a unit of work return: a postcondition with a rule for each way of composing
-- them (the control flow of the services under backend/app/services).
use revenue_ai.Base.{◌≡◌, false, true, if◌then◌else◌, refl, Bool, subst, ap}
use revenue_ai.Store.Session.{
  ok, err, Error, Action, Result, Session, pure, raise, bind_result, ◌>>=◌, guard_result,
  guard_against_concurrent_modification,
}

-- what an action returns, when it returns
pub record Yields {A : Type 0} (Q : A → Type 0) (m : Action A) : Type 0 where
  pub at : (s s' : Session) (a : A) → m s ≡ (ok a, s') → Q a

value_of :
    {A : Type 0} (Q : A → Type 0) (a b : A) (s s' : Session)
    → Q a
    → ◌≡◌ {A = Result A × Session} (ok a, s) (ok b, s')
    → Q b
value_of Q a b s s' q h = subst Q (cc) q

module _ {A : Type 0} {Q : A → Type 0} where
  pub Yields-pure : (a : A) → Q a → Yields Q (pure a)
  Yields-pure a q = record { at = λ s s' b h. value_of Q a b s s' q h }

  pub Yields-if :
      (b : Bool) (m n : Action A)
      → (b ≡ true → Yields Q m)
      → (b ≡ false → Yields Q n)
      → Yields Q (if b then m else n)
  Yields-if true m n km kn = km refl
  Yields-if false m n km kn = kn refl

pub Yields-any : {A : Type 0} (m : Action A) → Yields (λ a. Unit) m
Yields-any m = record { at = λ s s' a h. tt }

module _ {A B : Type 0} {Q : B → Type 0} where
  bind_result-value :
      (f : A → Action B) (r : Result A) (s s' : Session) (b : B)
      → ((a : A) → r ≡ ok a → Yields Q (f a))
      → bind_result r f s ≡ (ok b, s')
      → Q b
  bind_result-value f (ok a) s s' b k h = (k a refl).at s s' b h
  bind_result-value f (err e) s s' b k h = cc

  pub Yields-bind :
      {P : A → Type 0} (m : Action A) (f : A → Action B)
      → Yields P m
      → ((a : A) → P a → Yields Q (f a))
      → Yields Q (m >>= f)
  Yields-bind m f km kf = record {
    at = λ s s' b h.
        bind_result-value f (m s).0 (m s).1 s' b
          (λ a e. kf a (km.at s (m s).1 a (ap (λ (r : Result A). (r, (m s).1)) e))) h;
  }

module _ {A B : Type 0} {Q : B → Type 0} where
  -- an action whose value does not matter, and then another
  pub Yields-then :
      (m : Action A) (f : A → Action B) → ((a : A) → Yields Q (f a)) → Yields Q (m >>= f)
  Yields-then m f k = Yields-bind m f (Yields-any m) (λ a u. k a)

module _ {A : Type 0} {Q : A → Type 0} where
  guard_result-value :
      (r : Result A) (s s' t : Session) (a : A)
      → ((b : A) → r ≡ ok b → Q b)
      → guard_result (r, s) ≡ (ok a, s')
      → Q a
  guard_result-value (ok b) s s' t a k h = subst Q (cc) (k b refl)
  guard_result-value (err Error.not_found) s s' t a k h = cc
  guard_result-value (err Error.invalid_state_transition) s s' t a k h = cc
  guard_result-value (err Error.concurrent_modification) s s' t a k h = cc
  guard_result-value (err Error.validation_failed) s s' t a k h = cc
  guard_result-value (err Error.stale_data) s s' t a k h = cc
  guard_result-value (err Error.integrity_error) s s' t a k h = cc
  guard_result-value (err Error.multiple_results) s s' t a k h = cc
  guard_result-value (err Error.value_error) s s' t a k h = cc

  pub Yields-guard :
      (m : Action A) → Yields Q m → Yields Q (guard_against_concurrent_modification m)
  unfolding guard_against_concurrent_modification
  Yields-guard m k = record {
    at = λ s s' a h.
        guard_result-value (m s).0 (m s).1 s' s a
          (λ b e. k.at s (m s).1 b (ap (λ (r : Result A). (r, (m s).1)) e)) h;
  }

  pub Yields-raise : (e : Error) → Yields Q (raise e)
  Yields-raise e = record { at = λ s s' a h. cc }
