-- ===== src/Provider/Durable.antt =====
-- Actions that have committed what they did by the time they return: SQLAlchemy's `commit` is the
-- last of their writes (backend/app/services/webhook_service.py).
use revenue_ai.Store.Session.{
  Action, Result, Session, Error, ok, err, pure, bind_result, ◌>>=◌, ◌>>◌, commit, flush,
  guard_result, guard_against_concurrent_modification, modify,
}
use revenue_ai.Base.{◌≡◌, Bool, true, false, if◌then◌else◌, refl, ⊤}

-- the tables are committed if the action has returned
abbrev pub Stored : {A : Type 0} → Result A × Session → Type 0
Stored (ok a, s) = s.committed ≡ s.work
Stored (err e, s) = ⊤

pub record Durable {A : Type 0} (m : Action A) : Type 0 where
  pub at : (s : Session) → Stored (m s)

module _ {A B : Type 0} where
  Stored-last :
      (f : A → Action B) (r : Result A) (s : Session)
      → ((a : A) → Durable (f a))
      → Stored (bind_result r f s)
  Stored-last f (ok a) s k = (k a).at s
  Stored-last f (err e) s k = tt

  -- whatever comes before
  pub Durable-bind :
      (m : Action A) (f : A → Action B) → ((a : A) → Durable (f a)) → Durable (m >>= f)
  Durable-bind m f k = record { at = λ s. Stored-last f (m s).0 (m s).1 k }

  Stored-pure :
      (b : B) (r : Result A) (s : Session) → Stored (r, s) → Stored (bind_result r (λ _. pure b) s)
  Stored-pure b (ok a) s h = h
  Stored-pure b (err e) s h = tt

  -- and only a value after it
  pub Durable-value : (m : Action A) (b : B) → Durable m → Durable (m >> pure b)
  Durable-value m b k = record { at = λ s. Stored-pure b (m s).0 (m s).1 (k.at s) }

module _ {A : Type 0} where
  pub Durable-if :
      (b : Bool) (m n : Action A) → Durable m → Durable n → Durable (if b then m else n)
  Durable-if true m n km kn = km
  Durable-if false m n km kn = kn

  Stored-guard : (r : Result A) (s : Session) → Stored (r, s) → Stored (guard_result (r, s))
  Stored-guard (ok a) s h = h
  Stored-guard (err Error.stale_data) s h = tt
  Stored-guard (err e) s h = tt

  pub Durable-guard : (m : Action A) → Durable m → Durable (guard_against_concurrent_modification m)
  unfolding guard_against_concurrent_modification
  Durable-guard m k = record { at = λ s. Stored-guard (m s).0 (m s).1 (k.at s) }

set_committed-Durable : Durable (modify (λ s. record s { committed = s.work }))
set_committed-Durable = record { at = λ s. refl }

pub commit-Durable : Durable commit
unfolding commit
commit-Durable =
    Durable-bind flush (λ _. modify (λ s. record s { committed = s.work }))
      (λ _. set_committed-Durable)

pub commit_value-Durable : {A : Type 0} (a : A) → Durable (commit >> pure a)
commit_value-Durable a = Durable-value commit a commit-Durable

pub ruleset durable =
    (Durable-value, Durable-if, commit-Durable, commit_value-Durable, Durable-bind)
