-- ===== src/PlanStore/Access.antt =====
-- When a plan is released: the tests of `verify`, and what `consume` changes.
use openapi_to.Common.{
  ap, ◌∙◌, text_equality, sym, Option-cases, ◌+◌, subst, refl, text_eq_iff, text_eq, leb→le, inr,
  utf8, arith, ◌≢◌, if◌then◌else◌, inl, ◌<◌, ◌≤◌, leb, err, none, Bool-cases, ok, ◌≡◌, some, ℕ,
  Option, Result, Text,
}
use openapi_to.Common.Dictionary.{get, put, get-put_self, get-put}
use openapi_to.PlanStore.{
  Plan, Entry, EntryState, active, used, Store, PlanError, plan_not_found, plan_expired,
  plan_already_used, plan_hash_mismatch, plan_token_invalid, verify, consume, touch, mark_used,
  check_entry, after_verify, is_used,
}

-- The conditions under which the entry's plan is released.
pub record IsReleased (e : Entry) (token hash : Text) (now : ℕ) : Type 0 where
  pub unexpired : now < e.plan.expires_at
  pub unused : e.state ≡ active
  pub approved : e.plan.plan_hash ≡ hash
  pub same_token : utf8 token ≡ utf8 e.token

-- The first test that fails decides the error.
abbrev pub Refused : PlanError → Option Entry → Text → Text → ℕ → Type 0
Refused plan_not_found o token hash now = o ≡ none
Refused plan_expired o token hash now = (e : Entry) × (o ≡ some e) × (e.plan.expires_at ≤ now)
Refused plan_already_used o token hash now =
    (e : Entry) × (o ≡ some e) × (now < e.plan.expires_at) × (e.state ≡ used)
Refused plan_hash_mismatch o token hash now =
    (e : Entry) × (o ≡ some e)
    × (now < e.plan.expires_at)
    × (e.state ≡ active)
    × (e.plan.plan_hash ≢ hash)
Refused plan_token_invalid o token hash now =
    (e : Entry) × (o ≡ some e)
    × (now < e.plan.expires_at)
    × (e.state ≡ active)
    × (e.plan.plan_hash ≡ hash)
    × (utf8 token ≢ utf8 e.token)
Refused _ o token hash now = ⊥

abbrev pub Verified : Result PlanError Plan → Option Entry → Text → Text → ℕ → Type 0
Verified (ok plan) o token hash now =
    (e : Entry) × (o ≡ some e) × (plan ≡ e.plan) × IsReleased e token hash now
Verified (err x) o token hash now = Refused x o token hash now

check_entry_outcome :
    (e : Entry) (token hash : Text) (now : ℕ)
    → Verified (check_entry e token hash now) (some e) token hash now
unfolding check_entry
check_entry_outcome e token hash now = elim (Bool-cases (leb e.plan.expires_at now)) [
  | inl old ↦ rw (old, if◌then◌else◌) (e, refl, leb→le _ _ old)
  | inr young ↦ elim (Bool-cases (is_used e)) [
    | inl spent ↦
        rw (young, if◌then◌else◌) (rw (spent, if◌then◌else◌) (e, refl, ground arith, ground arith))
    | inr fresh ↦ elim (Bool-cases (text_eq e.plan.plan_hash hash)) [
      | inr other ↦
          rw (young, if◌then◌else◌)
            (rw (fresh, if◌then◌else◌)
              (rw (other, if◌then◌else◌)
                (
                  e,
                  refl,
                  ground arith,
                  ground arith,
                  ground (arith, text_eq_iff e.plan.plan_hash hash),
                )))
      | inl approved ↦ elim (Bool-cases (text_eq (utf8 token) (utf8 e.token))) [
        | inl right ↦
            rw (young, if◌then◌else◌)
              (rw (fresh, if◌then◌else◌)
                (rw (approved, if◌then◌else◌)
                  (rw (right, if◌then◌else◌)
                    (
                      e,
                      refl,
                      refl,
                      record {
                        unexpired = ground arith;
                        unused = ground arith;
                        approved = (text_eq_iff e.plan.plan_hash hash).0 approved;
                        same_token = (text_eq_iff (utf8 token) (utf8 e.token)).0 right;
                      },
                    ))))
        | inr wrong ↦
            rw (young, if◌then◌else◌)
              (rw (fresh, if◌then◌else◌)
                (rw (approved, if◌then◌else◌)
                  (rw (wrong, if◌then◌else◌)
                    (
                      e,
                      refl,
                      ground arith,
                      ground arith,
                      (text_eq_iff e.plan.plan_hash hash).0 approved,
                      ground (arith, text_eq_iff (utf8 token) (utf8 e.token)),
                    ))))
      ]
    ]
  ]
]

module _ (plan_id token hash : Text) (now : ℕ) (s : Store) where
  -- `verify` releases the plan exactly of an entry that is there, not expired, not used, with the
  -- approved hash and the very token; otherwise the first of these tests that fails names the error.
  pub verify_outcome :
      Verified (verify plan_id token hash now s).1 (get plan_id s.entries) token hash now
  unfolding verify
  verify_outcome = elim (Option-cases (get plan_id s.entries)) [
    | inl missing ↦ rw (missing, verify) refl
    | inr (e, found) ↦ rw (found, verify) (check_entry_outcome e token hash now)
  ]

-- `consume` answers what `verify` answers.
after_verify-answer :
    (plan_id : Text) (e : Entry) (st : EntryState) (s : Store) (r : Result PlanError Plan)
    → (after_verify plan_id (touch st e plan_id s, r)).1 ≡ r
unfolding after_verify mark_used touch
after_verify-answer plan_id e st s (err x) = refl
after_verify-answer plan_id e st s (ok plan) =
    rw
      (
        get-put_self plan_id (record e { state = st; last_accessed = s.access_sequence + 1 })
            s.entries,
        mark_used,
      )
      refl

abbrev pub state_of : Option Entry → Option EntryState
state_of none = none
state_of (some e) = some e.state

-- The state of the entry behind `consume`: used if the plan was released, and as it was if not.
abbrev pub state_after : Result PlanError Plan → Option Entry → Option EntryState
state_after (ok plan) o = some used
state_after (err x) o = state_of o

after_verify-state :
    (plan_id : Text) (e : Entry) (s : Store) (r : Result PlanError Plan)
    → state_of (get plan_id (after_verify plan_id (touch e.state e plan_id s, r)).0.entries)
      ≡ state_after r (some e)
unfolding after_verify mark_used touch
after_verify-state plan_id e s (err x) =
    rw
      (get-put_self plan_id (record e { state = e.state; last_accessed = s.access_sequence + 1 })
        s.entries)
      refl
after_verify-state plan_id e s (ok plan) =
    let once = record e { state = e.state; last_accessed = s.access_sequence + 1 } in
    rw (get-put_self plan_id once s.entries, mark_used)
      (rw
        (get-put_self plan_id
          (record once { state = used; last_accessed = s.access_sequence + 1 + 1 })
          (put plan_id once s.entries))
        refl)

touch-other :
    (j plan_id : Text) (st : EntryState) (e : Entry) (s : Store)
    → j ≢ plan_id
    → get j (touch st e plan_id s).entries ≡ get j s.entries
unfolding touch
touch-other j plan_id st e s h = ground (
  arith,
  get-put plan_id (record e { state = st; last_accessed = s.access_sequence + 1 }) s.entries j,
  text_eq_iff plan_id j,
)

mark_used-other :
    (j plan_id : Text) (plan : Plan) (s : Store)
    → j ≢ plan_id
    → get j (mark_used plan_id plan s).0.entries ≡ get j s.entries
unfolding mark_used
mark_used-other j plan_id plan s h = elim (Option-cases (get plan_id s.entries)) [
  | inl missing ↦ rw (missing, mark_used) refl
  | inr (e, found) ↦ rw (found, mark_used) (touch-other j plan_id used e s h)
]

after_verify-other :
    (j plan_id : Text) (r : Store × Result PlanError Plan)
    → j ≢ plan_id
    → get j (after_verify plan_id r).0.entries ≡ get j r.0.entries
unfolding after_verify
after_verify-other j plan_id (s, ok plan) h = mark_used-other j plan_id plan s h
after_verify-other j plan_id (s, err x) h = refl

pub verify-other :
    (j plan_id token hash : Text) (now : ℕ) (s : Store)
    → j ≢ plan_id
    → get j (verify plan_id token hash now s).0.entries ≡ get j s.entries
unfolding verify
verify-other j plan_id token hash now s h = elim (Option-cases (get plan_id s.entries)) [
  | inl missing ↦ rw (missing, verify) refl
  | inr (e, found) ↦ rw (found, verify) (touch-other j plan_id e.state e s h)
]

-- `consume` leaves the entries of other plans as they are.
pub consume-other :
    (j plan_id token hash : Text) (now : ℕ) (s : Store)
    → j ≢ plan_id
    → get j (consume plan_id token hash now s).0.entries ≡ get j s.entries
unfolding consume
consume-other j plan_id token hash now s h =
    after_verify-other j plan_id (verify plan_id token hash now s) h
    ∙ verify-other j plan_id token hash now s h

module _ (plan_id token hash : Text) (now : ℕ) (s : Store) where
  pub verify-state :
      state_of (get plan_id (verify plan_id token hash now s).0.entries)
      ≡ state_of (get plan_id s.entries)
  unfolding verify touch
  verify-state = elim (Option-cases (get plan_id s.entries)) [
    | inl missing ↦ rw (missing, verify) (rw missing refl)
    | inr (e, found) ↦
        rw (found, verify)
          (rw
            (get-put_self plan_id
              (record e { state = e.state; last_accessed = s.access_sequence + 1 }) s.entries)
            refl)
  ]

  -- `consume` releases exactly the plan of an entry that is there, not expired, not used, with the
  -- approved hash and the very token; otherwise the first of these tests that fails names the error.
  -- A released plan is marked as used; a refusal leaves the state of the entry as it was.
  pub consume_outcome :
      Verified (consume plan_id token hash now s).1 (get plan_id s.entries) token hash now
      × (state_of (get plan_id (consume plan_id token hash now s).0.entries)
          ≡ state_after (consume plan_id token hash now s).1 (get plan_id s.entries))
  unfolding consume verify after_verify
  consume_outcome = elim (Option-cases (get plan_id s.entries)) [
    | inl missing ↦ rw (missing, verify) (refl, rw missing refl)
    | inr (e, found) ↦
        rw (found, verify)
          (
            subst (λ r. Verified r (some e) token hash now)
                (sym (after_verify-answer plan_id e e.state s (check_entry e token hash now)))
                (check_entry_outcome e token hash now),
            after_verify-state plan_id e s (check_entry e token hash now)
                ∙ ap (λ r. state_after r (some e))
                    (sym (after_verify-answer plan_id e e.state s (check_entry e token hash now))),
          )
  ]
