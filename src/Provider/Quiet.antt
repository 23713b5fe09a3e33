-- ===== src/Provider/Quiet.antt =====
-- Actions that leave a part of the session as it is, whether they return or raise: a rule for
-- each way to build an action (backend/app/services/concurrency.py for the guard).
use revenue_ai.Store.Models.{Db}
use revenue_ai.Services.Orchestrator.{try_domain, handle_result}
use revenue_ai.Store.Session.{
  Session, Action, Error, Result, guard_against_concurrent_modification, pure, bind_result,
  or_raise, query, raise, rolled_back, ◌>>=◌, guard_result, ok, err, is_domain_error,
}
use revenue_ai.Base.{
  if◌then◌else◌, true, false, Bool, Option, ap, some, ◌≡◌, none, refl, ◌∙◌, Bool-cases, inl, inr,
}

pub record Preserves {X A : Type 0} (get : Session → X) (m : Action A) : Type 0 where
  pub at : (s : Session) → get (m s).1 ≡ get s

module _ {X A : Type 0} {get : Session → X} where
  pub Preserves-pure : (a : A) → Preserves get (pure a)
  Preserves-pure a = record { at = λ s. refl }

  pub Preserves-raise : (e : Error) → Preserves {A = A} get (raise e)
  Preserves-raise e = record { at = λ s. refl }

  pub Preserves-query : (f : Db → A) → Preserves get (query f)
  Preserves-query f = record { at = λ s. refl }

  pub Preserves-or_raise : (o : Option A) (e : Error) → Preserves get (or_raise o e)
  Preserves-or_raise none e = record { at = λ s. refl }
  Preserves-or_raise (some a) e = record { at = λ s. refl }

  pub Preserves-if :
      (b : Bool) (m n : Action A)
      → Preserves get m
      → Preserves get n
      → Preserves get (if b then m else n)
  Preserves-if true m n km kn = km
  Preserves-if false m n km kn = kn

  guard_result-same :
      (r : Result A) (s s' : Session)
      → ((t : Session) → get (rolled_back t) ≡ get t)
      → get s' ≡ get s
      → get (guard_result (r, s')).1 ≡ get s
  guard_result-same (ok a) s s' back h = h
  guard_result-same (err Error.stale_data) s s' back h = back s' ∙ h
  guard_result-same (err e) s s' back h = h

  pub Preserves-guard :
      (m : Action A)
      → ((t : Session) → get (rolled_back t) ≡ get t)
      → Preserves get m
      → Preserves get (guard_against_concurrent_modification m)
  unfolding guard_against_concurrent_modification
  Preserves-guard m back km = record {
    at = λ s. guard_result-same (m s).0 s (m s).1 back (km.at s);
  }

module _ {X A B : Type 0} {get : Session → X} where
  bind_result-same :
      (f : A → Action B) (r : Result A) (s : Session)
      → ((a : A) → Preserves get (f a))
      → get (bind_result r f s).1 ≡ get s
  bind_result-same f (ok a) s k = (k a).at s
  bind_result-same f (err e) s k = refl

  pub Preserves-bind :
      (m : Action A) (f : A → Action B)
      → Preserves get m
      → ((a : A) → Preserves get (f a))
      → Preserves get (m >>= f)
  Preserves-bind m f km kf = record { at = λ s. bind_result-same f (m s).0 (m s).1 kf ∙ km.at s }

  handle_result-same :
      (r : Result A) (s s' : Session) (caught : Error → Action B) (next : A → Action B)
      → ((e : Error) → Preserves get (caught e))
      → ((a : A) → Preserves get (next a))
      → get s' ≡ get s
      → get (handle_result (r, s') caught next).1 ≡ get s
  handle_result-same (ok a) s s' caught next kc kn h = (kn a).at s' ∙ h
  handle_result-same (err e) s s' caught next kc kn h = elim (Bool-cases (is_domain_error e)) [
    | inl domain ↦ rw domain ((kc e).at s' ∙ h)
    | inr foreign ↦ rw foreign h
  ]

  pub Preserves-try_domain :
      (m : Action A) (caught : Error → Action B) (next : A → Action B)
      → Preserves get m
      → ((e : Error) → Preserves get (caught e))
      → ((a : A) → Preserves get (next a))
      → Preserves get (try_domain m caught next)
  unfolding try_domain
  Preserves-try_domain m caught next km kc kn = record {
    at = λ s. handle_result-same (m s).0 s (m s).1 caught next kc kn (km.at s);
  }

module _ {X Y A : Type 0} {get : Session → X} (f : X → Y) where
  pub Preserves-part : (m : Action A) → Preserves get m → Preserves (λ s. f (get s)) m
  Preserves-part m k = record { at = λ s. ap f (k.at s) }
