-- ===== src/Trail/Keeps.antt =====
-- Actions that keep an invariant of the tables, whether they return or raise: a rule for each way
-- to build an action of a session (backend/app/services/concurrency.py for the guard).
use revenue_ai.Services.Orchestrator.{try_domain, handle_result}
use revenue_ai.Store.Session.{
  Action, Error, Result, guard_against_concurrent_modification, modify_work, pure, query, Session,
  or_raise, raise, ◌>>=◌, ◌>>◌, bind_result, guard_result, ok, err, is_domain_error,
}
use revenue_ai.Store.Models.{Db}
use revenue_ai.Base.{
  none, some, inl, inr, true, false, ◌≡◌, Bool, Option, if◌then◌else◌, some, Bool-cases, inl, inr,
}

-- What holds after an action. After an error that is not the program's own the session is rolled
-- back or thrown away, so only the committed tables count.
abbrev pub Safe : {A : Type 0} → (Db → Type 0) → Result A × Session → Type 0
Safe I (ok a, s) = I s.work × I s.committed
Safe I (err e, s) = (is_domain_error e ≡ true → I s.work) × I s.committed

-- The weaker promise of an operation whose errors nothing catches: after any error only the
-- committed tables count.
abbrev pub Lands : {A : Type 0} → (Db → Type 0) → Result A × Session → Type 0
Lands I (ok a, s) = I s.work × I s.committed
Lands I (err e, s) = I s.committed

pub record Settles {A : Type 0} (I : Db → Type 0) (m : Action A) : Type 0 where
  pub at : (s : Session) → I s.work → I s.committed → Lands I (m s)

pub record Keeps {A : Type 0} (I : Db → Type 0) (m : Action A) : Type 0 where
  pub at : (s : Session) → I s.work → I s.committed → Safe I (m s)

module _ {A : Type 0} {I : Db → Type 0} where
  pub Keeps-pure : (a : A) → Keeps I (pure a)
  Keeps-pure a = record { at = λ s w c. (w, c) }

  pub Keeps-raise : (e : Error) → Keeps {A = A} I (raise e)
  Keeps-raise e = record { at = λ s w c. (λ h. w, c) }

  pub Keeps-query : (f : Db → A) → Keeps I (query f)
  Keeps-query f = record { at = λ s w c. (w, c) }

  pub Keeps-or_raise : (o : Option A) (e : Error) → Keeps I (or_raise o e)
  Keeps-or_raise none e = record { at = λ s w c. (λ h. w, c) }
  Keeps-or_raise (some a) e = record { at = λ s w c. (w, c) }

  pub Keeps-if : (b : Bool) (m n : Action A) → Keeps I m → Keeps I n → Keeps I (if b then m else n)
  Keeps-if true m n km kn = km
  Keeps-if false m n km kn = kn

module _ {I : Db → Type 0} where
  pub Keeps-modify_work : (f : Db → Db) → ((db : Db) → I db → I (f db)) → Keeps I (modify_work f)
  Keeps-modify_work f k = record { at = λ s w c. (k s.work w, c) }

module _ {A B : Type 0} {I : Db → Type 0} where
  pub Safe-bind_result :
      (f : A → Action B) (r : Result A) (s : Session)
      → ((a : A) → Keeps I (f a))
      → Safe I (r, s)
      → Safe I (bind_result r f s)
  Safe-bind_result f (ok a) s k h = (k a).at s h.0 h.1
  Safe-bind_result f (err e) s k h = h

  pub Keeps-bind :
      (m : Action A) (f : A → Action B) → Keeps I m → ((a : A) → Keeps I (f a)) → Keeps I (m >>= f)
  Keeps-bind m f km kf = record {
    at = λ s w c. Safe-bind_result f (m s).0 (m s).1 kf (km.at s w c);
  }

  pub Keeps-then : (m : Action A) (n : Action B) → Keeps I m → Keeps I n → Keeps I (m >> n)
  Keeps-then m n km kn = record {
    at = λ s w c. Safe-bind_result (λ _. n) (m s).0 (m s).1 (λ _. kn) (km.at s w c);
  }

  Safe-handle :
      (r : Result A) (s : Session) (caught : Error → Action B) (next : A → Action B)
      → ((e : Error) → Keeps I (caught e))
      → ((a : A) → Keeps I (next a))
      → Safe I (r, s)
      → Safe I (handle_result (r, s) caught next)
  Safe-handle (ok a) s caught next kc kn h = (kn a).at s h.0 h.1
  Safe-handle (err e) s caught next kc kn h = elim (Bool-cases (is_domain_error e)) [
    | inl domain ↦ rw domain ((kc e).at s (h.0 domain) h.1)
    | inr foreign ↦ rw foreign h
  ]

  pub Keeps-try_domain :
      (m : Action A) (caught : Error → Action B) (next : A → Action B)
      → Keeps I m
      → ((e : Error) → Keeps I (caught e))
      → ((a : A) → Keeps I (next a))
      → Keeps I (try_domain m caught next)
  unfolding try_domain
  Keeps-try_domain m caught next km kc kn = record {
    at = λ s w c. Safe-handle (m s).0 (m s).1 caught next kc kn (km.at s w c);
  }

module _ {A : Type 0} (I : Db → Type 0) where
  Safe-guard : (r : Result A) (s : Session) → Safe I (r, s) → Safe I (guard_result (r, s))
  Safe-guard (ok a) s h = h
  Safe-guard (err Error.stale_data) s h = (λ _. h.1, h.1)
  Safe-guard (err e) s h = h

module _ {A : Type 0} {I : Db → Type 0} where
  pub Keeps-guard : (m : Action A) → Keeps I m → Keeps I (guard_against_concurrent_modification m)
  unfolding guard_against_concurrent_modification
  Keeps-guard m km = record { at = λ s w c. Safe-guard I (m s).0 (m s).1 (km.at s w c) }

module _ {A : Type 0} (I : Db → Type 0) where
  pub Safe→Lands : (r : Result A) (s : Session) → Safe I (r, s) → Lands I (r, s)
  Safe→Lands (ok a) s h = h
  Safe→Lands (err e) s h = h.1

  Lands-guard : (r : Result A) (s : Session) → Lands I (r, s) → Lands I (guard_result (r, s))
  Lands-guard (ok a) s h = h
  Lands-guard (err Error.stale_data) s h = h
  Lands-guard (err e) s h = h

  Lands-bind_result :
      {B : Type 0} (f : A → Action B) (r : Result A) (s : Session)
      → ((a : A) → Settles I (f a))
      → Lands I (r, s)
      → Lands I (bind_result r f s)
  Lands-bind_result f (ok a) s k h = (k a).at s h.0 h.1
  Lands-bind_result f (err e) s k h = h

module _ {A : Type 0} {I : Db → Type 0} where
  pub Settles-Keeps : (m : Action A) → Keeps I m → Settles I m
  Settles-Keeps m k = record { at = λ s w c. Safe→Lands I (m s).0 (m s).1 (k.at s w c) }

  pub Settles-if :
      (b : Bool) (m n : Action A) → Settles I m → Settles I n → Settles I (if b then m else n)
  Settles-if true m n km kn = km
  Settles-if false m n km kn = kn

  pub Settles-guard :
      (m : Action A) → Settles I m → Settles I (guard_against_concurrent_modification m)
  unfolding guard_against_concurrent_modification
  Settles-guard m km = record { at = λ s w c. Lands-guard I (m s).0 (m s).1 (km.at s w c) }

module _ {A B : Type 0} {I : Db → Type 0} where
  pub Settles-bind :
      (m : Action A) (f : A → Action B)
      → Settles I m
      → ((a : A) → Settles I (f a))
      → Settles I (m >>= f)
  Settles-bind m f km kf = record {
    at = λ s w c. Lands-bind_result I f (m s).0 (m s).1 kf (km.at s w c);
  }

  pub Settles-then : (m : Action A) (n : Action B) → Settles I m → Settles I n → Settles I (m >> n)
  Settles-then m n km kn = record {
    at = λ s w c. Lands-bind_result I (λ _. n) (m s).0 (m s).1 (λ _. kn) (km.at s w c);
  }
