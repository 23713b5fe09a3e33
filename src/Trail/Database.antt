-- ===== src/Trail/Database.antt =====
-- The invariant under each kind of change to the tables.
use revenue_ai.Domain.StateMachine.{can_transition}
use revenue_ai.Domain.Enums.{RecoveryCaseStatus, recovered, status_eq, discovered}
use revenue_ai.Base.{
  ℕ, suc, Bool, true, false, ◌≡◌, refl, List, [], ◌∷◌, ◌++◌, All, update, arith, if◌then◌else◌, ◌∙◌,
  Bool-cases, find, Option, some, String, inl, ap, inr, subst, ◌⊎◌, ℤ, ◌≢◌, pos, sym,
}
use revenue_ai.Store.Models.{
  RecoveryCase, AuditEvent, recovery_case, recovery_case_status_changed, recovery_case_created,
}
use revenue_ai.Store.Session.{has_id}
use revenue_ai.Trail.{TrailState, absent, entity_state, replay, IsExplained, AreExplained, at}

pub replay-append :
    (id : ℕ) (t : TrailState) (es : List AuditEvent) (e : AuditEvent)
    → replay id t (es ++ (e ∷ [])) ≡ entity_state id e.entity e.payload (replay id t es)
replay-append id t [] e = refl
replay-append id t (x ∷ es) e = replay-append id (entity_state id x.entity x.payload t) es e

-- an event that tells no reader anything
abbrev pub IsNeutral : AuditEvent → Type 0
IsNeutral e = (id : ℕ) (t : TrailState) → entity_state id e.entity e.payload t ≡ t

rows-event :
    (cases : List RecoveryCase) (es : List AuditEvent) (n : ℕ) (e : AuditEvent)
    → IsNeutral e
    → All (IsExplained es n) cases
    → All (IsExplained (es ++ (e ∷ [])) n) cases
rows-event [] es n e neutral h = tt
rows-event (c ∷ cases) es n e neutral h = (
  record {
    trail = replay-append c.id absent es e ∙ neutral c.id (replay c.id absent es) ∙ h.0.trail;
    known = h.0.known;
    no_contact = h.0.no_contact;
    no_money = h.0.no_money;
  },
  rows-event cases es n e neutral h.1,
)

pub event-AreExplained :
    (cases : List RecoveryCase) (es : List AuditEvent) (n : ℕ) (e : AuditEvent)
    → IsNeutral e
    → AreExplained cases es n
    → AreExplained cases (es ++ (e ∷ [])) n
event-AreExplained cases es n e neutral h = record {
  rows = rows-event cases es n e neutral h.rows;
  unused = λ id p. replay-append id absent es e ∙ neutral id (replay id absent es) ∙ h.unused id p;
}

rows-suc :
    (cases : List RecoveryCase) (es : List AuditEvent) (n : ℕ)
    → All (IsExplained es n) cases
    → All (IsExplained es (suc n)) cases
rows-suc [] es n h = tt
rows-suc (c ∷ cases) es n h = (
  record {
    trail = h.0.trail;
    known = omega (arith, h.0.known);
    no_contact = h.0.no_contact;
    no_money = h.0.no_money;
  },
  rows-suc cases es n h.1,
)

-- an id that is taken
pub suc-AreExplained :
    (cases : List RecoveryCase) (es : List AuditEvent) (n : ℕ)
    → AreExplained cases es n
    → AreExplained cases es (suc n)
suc-AreExplained cases es n h = record {
  rows = rows-suc cases es n h.rows;
  unused = λ id p. h.unused id (omega arith);
}

-- a change of a row that the invariant does not see
pub record Harmless (f : RecoveryCase → RecoveryCase) : Type 0 where
  pub same_id : (c : RecoveryCase) → (f c).id ≡ c.id
  pub same_status : (c : RecoveryCase) → (f c).status ≡ c.status
  pub same_contacts : (c : RecoveryCase) → (f c).customer_contact_count ≡ c.customer_contact_count
  pub same_money : (c : RecoveryCase) → (f c).recovered_amount ≡ c.recovered_amount

row-Harmless :
    (f : RecoveryCase → RecoveryCase) (b : Bool) (c : RecoveryCase) (es : List AuditEvent) (n : ℕ)
    → Harmless f
    → IsExplained es n c
    → IsExplained es n (if b then f c else c)
row-Harmless f false c es n k h = h
row-Harmless f true c es n k h = record {
  trail = rw (k.same_id c, k.same_status c) h.trail;
  known = rw (k.same_id c) h.known;
  no_contact = rw (k.same_contacts c) h.no_contact;
  no_money = rw (k.same_status c, k.same_money c) h.no_money;
}

rows-Harmless :
    (f : RecoveryCase → RecoveryCase) (id : ℕ) (cases : List RecoveryCase) (es : List AuditEvent)
    (n : ℕ)
    → Harmless f
    → All (IsExplained es n) cases
    → All (IsExplained es n) (update (has_id id) f cases)
rows-Harmless f id [] es n k h = tt
rows-Harmless f id (c ∷ cases) es n k h =
    (row-Harmless f (has_id id c) c es n k h.0, rows-Harmless f id cases es n k h.1)

pub update-AreExplained :
    (f : RecoveryCase → RecoveryCase) (id : ℕ) (cases : List RecoveryCase) (es : List AuditEvent)
    (n : ℕ)
    → Harmless f
    → AreExplained cases es n
    → AreExplained (update (has_id id) f cases) es n
update-AreExplained f id cases es n k h = record {
  rows = rows-Harmless f id cases es n k h.rows;
  unused = h.unused;
}

pub find-All {κ} :
    (P : RecoveryCase → Type κ) (id : ℕ) (cases : List RecoveryCase) (c : RecoveryCase)
    → All P cases
    → find (has_id id) cases ≡ some c
    → P c × (c.id ≡ id)
find-All P id [] c h e = cc
find-All P id (x ∷ cases) c h e = elim (Bool-cases (has_id id x)) [
  | inl hit ↦
      let same : x ≡ c = ground arith in
      (subst P same h.0, subst (λ (y : RecoveryCase). y.id ≡ id) same (ground arith))
  | inr miss ↦ find-All P id cases c h.1 (ground arith)
]

pub update-update :
    (p : RecoveryCase → Bool) (f g : RecoveryCase → RecoveryCase) (cases : List RecoveryCase)
    → ((c : RecoveryCase) → p (f c) ≡ p c)
    → update p g (update p f cases) ≡ update p (λ c. g (f c)) cases
update-update p f g [] same = refl
update-update p f g (c ∷ cases) same = elim (Bool-cases (p c)) [
  | inl hit ↦ rw hit (rw (same c) (rw hit (ap (λ l. g (f c) ∷ l) (update-update p f g cases same))))
  | inr miss ↦ rw miss (rw miss (ap (λ l. c ∷ l) (update-update p f g cases same)))
]

-- a change of a row that goes with an event of the trail
pub record Moves (target : RecoveryCaseStatus) (f : RecoveryCase → RecoveryCase) : Type 0 where
  pub same_id : (c : RecoveryCase) → (f c).id ≡ c.id
  pub new_status : (c : RecoveryCase) → (f c).status ≡ target
  pub same_contacts : (c : RecoveryCase) → (f c).customer_contact_count ≡ c.customer_contact_count
  pub money :
      (target ≡ recovered) ⊎ ((c : RecoveryCase) → (f c).recovered_amount ≡ c.recovered_amount)

recovered_is_final :
    (from target : RecoveryCaseStatus) → from ≡ recovered → can_transition from target ≡ true → ⊥
unfolding can_transition
recovered_is_final from target e h = ground arith

status_eq_refl : (s : RecoveryCaseStatus) → status_eq s s ≡ true
status_eq_refl RecoveryCaseStatus.discovered = refl
status_eq_refl _ = refl

-- the event of a change, for the reader of that case and of another
trail_self :
    (id : ℕ) (from target : RecoveryCaseStatus) (reason : Option String) (e : AuditEvent)
    → e.entity ≡ recovery_case id
    → e.payload ≡ recovery_case_status_changed from target reason
    → can_transition from target ≡ true
    → entity_state id e.entity e.payload (at from) ≡ at target
trail_self id from target reason e entity payload legal =
    rw (entity, payload) (ground (arith, status_eq_refl from))

trail_other :
    (id j : ℕ) (t : TrailState) (e : AuditEvent)
    → e.entity ≡ recovery_case id
    → id ≢ j
    → entity_state j e.entity e.payload t ≡ t
trail_other id j t e entity other = rw entity (ground arith)

money_lem :
    (f : RecoveryCase → RecoveryCase) (from target : RecoveryCaseStatus) (c : RecoveryCase)
    → c.status ≡ from
    → can_transition from target ≡ true
    → Moves target f
    → (c.status ≡ recovered) ⊎ (c.recovered_amount ≡ pos 0)
    → ((f c).status ≡ recovered) ⊎ ((f c).recovered_amount ≡ pos 0)
money_lem f from target c was legal k (inl final) =
    absurd (recovered_is_final from target (sym was ∙ final) legal)
money_lem f from target c was legal k (inr none_yet) = elim k.money [
  | inl paid ↦ inl (k.new_status c ∙ paid)
  | inr same ↦ inr (same c ∙ none_yet)
]

row-Moves :
    (f : RecoveryCase → RecoveryCase) (id : ℕ) (from target : RecoveryCaseStatus)
    (reason : Option String) (c : RecoveryCase) (es : List AuditEvent) (n : ℕ) (e : AuditEvent)
    → e.entity ≡ recovery_case id
    → e.payload ≡ recovery_case_status_changed from target reason
    → Moves target f
    → can_transition from target ≡ true
    → replay id absent es ≡ at from
    → c.id ≡ id
    → IsExplained es n c
    → IsExplained (es ++ (e ∷ [])) n (f c)
row-Moves f id from target reason c es n e entity payload k legal start same h =
    let now_at : replay c.id absent es ≡ at from = rw same start in
    let was : c.status ≡ from = cc (h.trail, now_at) in
    record {
      trail =
          rw (k.same_id c, k.new_status c)
            (replay-append c.id absent es e
              ∙ ap (entity_state c.id e.entity e.payload) now_at
              ∙ trail_self c.id from target reason e (rw same entity) payload legal);
      known = rw (k.same_id c) h.known;
      no_contact = rw (k.same_contacts c) h.no_contact;
      no_money = money_lem f from target c was legal k h.no_money;
    }

row-other :
    (id : ℕ) (c : RecoveryCase) (es : List AuditEvent) (n : ℕ) (e : AuditEvent)
    → e.entity ≡ recovery_case id
    → id ≢ c.id
    → IsExplained es n c
    → IsExplained (es ++ (e ∷ [])) n c
row-other id c es n e entity other h = record {
  trail =
      replay-append c.id absent es e
      ∙ trail_other id c.id (replay c.id absent es) e entity other
      ∙ h.trail;
  known = h.known;
  no_contact = h.no_contact;
  no_money = h.no_money;
}

rows-Moves :
    (f : RecoveryCase → RecoveryCase) (id : ℕ) (from target : RecoveryCaseStatus)
    (reason : Option String) (cases : List RecoveryCase) (es : List AuditEvent) (n : ℕ)
    (e : AuditEvent)
    → e.entity ≡ recovery_case id
    → e.payload ≡ recovery_case_status_changed from target reason
    → Moves target f
    → can_transition from target ≡ true
    → replay id absent es ≡ at from
    → All (IsExplained es n) cases
    → All (IsExplained (es ++ (e ∷ [])) n) (update (has_id id) f cases)
rows-Moves f id from target reason [] es n e entity payload k legal start h = tt
rows-Moves f id from target reason (c ∷ cases) es n e entity payload k legal start h = (
  elim (Bool-cases (has_id id c)) [
    | inl hit ↦
        rw hit (
          row-Moves f id from target reason c es n e entity payload k legal start (ground arith)
            h.0)
    | inr miss ↦ rw miss (row-other id c es n e entity (ground arith) h.0)
  ],
  rows-Moves f id from target reason cases es n e entity payload k legal start h.1,
)

-- A legal change of status with its event, from the status that the row has.
pub move-AreExplained :
    (f : RecoveryCase → RecoveryCase) (id : ℕ) (c : RecoveryCase) (target : RecoveryCaseStatus)
    (reason : Option String) (cases : List RecoveryCase) (es : List AuditEvent) (n : ℕ)
    (e : AuditEvent)
    → e.entity ≡ recovery_case id
    → e.payload ≡ recovery_case_status_changed c.status target reason
    → Moves target f
    → can_transition c.status target ≡ true
    → find (has_id id) cases ≡ some c
    → AreExplained cases es n
    → AreExplained (update (has_id id) f cases) (es ++ (e ∷ [])) n
move-AreExplained f id c target reason cases es n e entity payload k legal found h =
    let (row, same) = find-All (IsExplained es n) id cases c h.rows found in
    record {
      rows =
          rows-Moves f id c.status target reason cases es n e entity payload k legal
            (subst (λ j. replay j absent es ≡ at c.status) same row.trail) h.rows;
      unused = λ j p.
          replay-append j absent es e
          ∙ trail_other id j (replay j absent es) e entity (ground (arith, row.known))
          ∙ h.unused j p;
    }

rows-create :
    (c : RecoveryCase) (cases : List RecoveryCase) (es : List AuditEvent) (n : ℕ) (e : AuditEvent)
    → e.entity ≡ recovery_case n
    → IsExplained (es ++ (e ∷ [])) (suc n) c
    → All (IsExplained es n) cases
    → All (IsExplained (es ++ (e ∷ [])) (suc n)) (cases ++ (c ∷ []))
rows-create c [] es n e entity new h = (new, tt)
rows-create c (x ∷ cases) es n e entity new h = (
  record {
    trail =
        replay-append x.id absent es e
        ∙ trail_other n x.id (replay x.id absent es) e entity (omega (arith, h.0.known))
        ∙ h.0.trail;
    known = omega (arith, h.0.known);
    no_contact = h.0.no_contact;
    no_money = h.0.no_money;
  },
  rows-create c cases es n e entity new h.1,
)

created_self :
    (n p : ℕ) (a : ℤ) (e : AuditEvent)
    → e.entity ≡ recovery_case n
    → e.payload ≡ recovery_case_created p a
    → entity_state n e.entity e.payload absent ≡ at discovered
created_self n p a e entity payload = rw (entity, payload) (ground arith)

-- A new row under an id that nothing uses, with the event of its creation.
pub create-AreExplained :
    (c : RecoveryCase) (p : ℕ) (a : ℤ) (cases : List RecoveryCase) (es : List AuditEvent) (n : ℕ)
    (e : AuditEvent)
    → e.entity ≡ recovery_case n
    → e.payload ≡ recovery_case_created p a
    → c.id ≡ n
    → c.status ≡ discovered
    → c.customer_contact_count ≡ 0
    → c.recovered_amount ≡ pos 0
    → AreExplained cases es n
    → AreExplained (cases ++ (c ∷ [])) (es ++ (e ∷ [])) (suc n)
create-AreExplained c p a cases es n e entity payload id status contacts money h = record {
  rows =
      rows-create c cases es n e entity
        (record {
          trail =
              rw (id, status)
                (replay-append n absent es e
                  ∙ ap (entity_state n e.entity e.payload) (h.unused n (omega arith))
                  ∙ created_self n p a e entity payload);
          known = omega (arith, id);
          no_contact = contacts;
          no_money = inr money;
        })
        h.rows;
  unused = λ j q.
      replay-append j absent es e
      ∙ trail_other n j (replay j absent es) e entity (omega arith)
      ∙ h.unused j (omega arith);
}
