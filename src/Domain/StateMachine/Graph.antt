-- ===== src/Domain/StateMachine/Graph.antt =====
-- backend/app/domain/state_machine.py: the transitions as a relation, and the paths through it.
use revenue_ai.Base.{true, false, ◌≡◌, refl, subst, ◌⊎◌, inl, inr}
use revenue_ai.Domain.Enums.{
  RecoveryCaseStatus, discovered, eligible, diagnosing, recommended, policy_review, approved,
  executing, recovered, stopped, failed,
}
use revenue_ai.Domain.StateMachine.{is_terminal, can_transition}

infix 40 ◌⟶◌ ◌⟶*◌
-- one legal change of status
abbrev pub ◌⟶◌ : RecoveryCaseStatus → RecoveryCaseStatus → Type 0
s ⟶ t = can_transition s t ≡ true

-- a sequence of legal changes, which lists what it passes through
pub data ◌⟶*◌ (s : RecoveryCaseStatus) : RecoveryCaseStatus → Type 0 where
  here : s ⟶* s
  next : {t u : RecoveryCaseStatus} → s ⟶* t → t ⟶ u → s ⟶* u

-- whether a sequence visits a status, its ends included
pub Visits : {s t : RecoveryCaseStatus} → RecoveryCaseStatus → s ⟶* t → Type 0
Visits {s} m here = m ≡ s
Visits m (next {u = u} p e) = Visits m p ⊎ (m ≡ u)

-- No status follows a terminal one, and every other status has one that follows it.
pub terminal_iff_no_exit :
    (s : RecoveryCaseStatus)
    → (is_terminal s ≡ true → (t : RecoveryCaseStatus) → can_transition s t ≡ false)
      × (is_terminal s ≡ false → (t : RecoveryCaseStatus) × (s ⟶ t))
unfolding is_terminal can_transition
terminal_iff_no_exit discovered = (λ h t. cc, λ h. (eligible, refl))
terminal_iff_no_exit eligible = (λ h t. cc, λ h. (diagnosing, refl))
terminal_iff_no_exit diagnosing = (λ h t. cc, λ h. (recommended, refl))
terminal_iff_no_exit recommended = (λ h t. cc, λ h. (policy_review, refl))
terminal_iff_no_exit policy_review = (λ h t. cc, λ h. (approved, refl))
terminal_iff_no_exit approved = (λ h t. cc, λ h. (executing, refl))
terminal_iff_no_exit executing = (λ h t. cc, λ h. (recovered, refl))
terminal_iff_no_exit failed = (λ h t. cc, λ h. (stopped, refl))
terminal_iff_no_exit _ = (λ h t. refl, λ h. cc)

Visits-end : {s t : RecoveryCaseStatus} (p : s ⟶* t) → Visits t p
unfolding Visits
Visits-end here = refl
Visits-end (next p e) = inr refl

-- the only statuses from which each of these is entered
into_approved : (s : RecoveryCaseStatus) → s ⟶ approved → s ≡ policy_review
unfolding can_transition
into_approved policy_review e = refl
into_approved _ e = cc

into_executing : (s : RecoveryCaseStatus) → s ⟶ executing → s ≡ approved
unfolding can_transition
into_executing approved e = refl
into_executing _ e = cc

into_recovered : (s : RecoveryCaseStatus) → s ⟶ recovered → s ≡ executing
unfolding can_transition
into_recovered executing e = refl
into_recovered _ e = cc

approved_via_review :
    {t : RecoveryCaseStatus} (p : discovered ⟶* t) → t ≡ approved → Visits policy_review p
unfolding Visits
approved_via_review here h = cc
approved_via_review (next {t = s} p e) h =
    inl (subst (λ m. Visits m p) (into_approved s (subst (λ m. s ⟶ m) h e)) (Visits-end p))

executing_via_approved :
    {t : RecoveryCaseStatus} (p : discovered ⟶* t)
    → t ≡ executing
    → Visits policy_review p × Visits approved p
unfolding Visits
executing_via_approved here h = cc
executing_via_approved (next {t = s} p e) h =
    let from = into_executing s (subst (λ m. s ⟶ m) h e) in
    (inl (approved_via_review p from), inl (subst (λ m. Visits m p) from (Visits-end p)))

-- Every sequence of legal changes from DISCOVERED to RECOVERED passes through the policy review,
-- the approval and the execution.
pub recovered_via_policy :
    {t : RecoveryCaseStatus} (p : discovered ⟶* t)
    → t ≡ recovered
    → Visits policy_review p × Visits approved p × Visits executing p
unfolding Visits
recovered_via_policy here h = cc
recovered_via_policy (next {t = s} p e) h =
    let from = into_recovered s (subst (λ m. s ⟶ m) h e) in
    let earlier = executing_via_approved p from in
    (inl earlier.0, inl earlier.1, inl (subst (λ m. Visits m p) from (Visits-end p)))
