-- ===== src/PlanStore/Replay.antt =====
-- Runs of the store of generation plans, and what they never do.
use openapi_to.Common.{
  ◌==◌, true, Bool, sym, Option, subst, inr, inl, text_equality, text_eq, ap, ltb, Bool-cases,
  if◌then◌else◌, ok, err, Result, text_eq_iff, none, some, false, arith, ◌≡◌, ◌≢◌, ℕ, Option-cases,
  Text, List,
}
use openapi_to.Common.Dictionary.{
  get, HasDistinctKeys, put-HasDistinctKeys, delete-HasDistinctKeys, get-delete, get-put,
}
use openapi_to.Common.Comparison.{Sign}
use openapi_to.PlanStore.{
  PlanError, EntryState, Plan, Draft, Entry, active, used, Store, StoreOptions, Event, delete_entry,
  cleanup, is_full, complete, add_plan, store_plan, create, verify, consume, clear, touch,
  mark_used, after_verify,
}
use openapi_to.PlanStore.Eviction.{cleanup_keeps, evict_keeps}
use openapi_to.PlanStore.Access.{
  Verified, state_of, state_after, consume_outcome, consume-other, verify-other, verify-state,
}

-- No entry of the identifier is active, and no identifier has two entries.
pub record IsSpent (j : Text) (s : Store) : Type 0 where
  pub single : HasDistinctKeys s.entries
  pub inactive : state_of (get j s.entries) ≢ some active

absent :
    (o : Option Entry) (t : Bool)
    → state_of o ≢ some active
    → state_of (if t then none else o) ≢ some active
absent o true h = ground arith
absent o false h = h

delete_entry-IsSpent :
    (j : Text) (event : Plan → Event) (plan_id : Text) (s : Store)
    → IsSpent j s
    → IsSpent j (delete_entry event plan_id s)
unfolding delete_entry
delete_entry-IsSpent j event plan_id s v = elim (Option-cases (get plan_id s.entries)) [
  | inl missing ↦ rw (missing, delete_entry) v
  | inr (e, found) ↦
      rw (found, delete_entry)
        (record {
          single = delete-HasDistinctKeys plan_id s.entries v.single;
          inactive =
              rw (get-delete plan_id s.entries j v.single)
                (absent _ (text_eq plan_id j) v.inactive);
        })
]

touch-single :
    (state : EntryState) (e : Entry) (plan_id : Text) (s : Store)
    → HasDistinctKeys s.entries
    → HasDistinctKeys (touch state e plan_id s).entries
unfolding touch
touch-single state e plan_id s h = put-HasDistinctKeys plan_id _ s.entries h

verify-single :
    (plan_id token hash : Text) (now : ℕ) (s : Store)
    → HasDistinctKeys s.entries
    → HasDistinctKeys (verify plan_id token hash now s).0.entries
unfolding verify
verify-single plan_id token hash now s h = elim (Option-cases (get plan_id s.entries)) [
  | inl missing ↦ rw (missing, verify) h
  | inr (e, found) ↦ rw (found, verify) (touch-single e.state e plan_id s h)
]

mark_used-single :
    (plan_id : Text) (plan : Plan) (s : Store)
    → HasDistinctKeys s.entries
    → HasDistinctKeys (mark_used plan_id plan s).0.entries
unfolding mark_used
mark_used-single plan_id plan s h = elim (Option-cases (get plan_id s.entries)) [
  | inl missing ↦ rw (missing, mark_used) h
  | inr (e, found) ↦ rw (found, mark_used) (touch-single used e plan_id s h)
]

after_verify-single :
    (plan_id : Text) (r : Store × Result PlanError Plan)
    → HasDistinctKeys r.0.entries
    → HasDistinctKeys (after_verify plan_id r).0.entries
unfolding after_verify
after_verify-single plan_id (s, ok plan) h = mark_used-single plan_id plan s h
after_verify-single plan_id (s, err x) h = h

verify-IsSpent :
    (j plan_id token hash : Text) (now : ℕ) (s : Store)
    → IsSpent j s
    → IsSpent j (verify plan_id token hash now s).0
verify-IsSpent j plan_id token hash now s v = record {
  single = verify-single plan_id token hash now s v.single;
  inactive = elim (Bool-cases (text_eq j plan_id)) [
    | inl same ↦
        subst (λ k. state_of (get k (verify plan_id token hash now s).0.entries) ≢ some active)
          (sym ((text_eq_iff j plan_id).0 same))
          (rw (verify-state plan_id token hash now s) (
            subst (λ k. state_of (get k s.entries) ≢ some active) ((text_eq_iff j plan_id).0 same)
              v.inactive))
    | inr other ↦
        rw (verify-other j plan_id token hash now s (ground (arith, text_eq_iff j plan_id)))
          v.inactive
  ];
}

state_after-inactive :
    (r : Result PlanError Plan) (o : Option Entry)
    → state_of o ≢ some active
    → state_after r o ≢ some active
state_after-inactive (ok plan) o h = ground arith
state_after-inactive (err x) o h = h

consume-IsSpent :
    (j plan_id token hash : Text) (now : ℕ) (s : Store)
    → IsSpent j s
    → IsSpent j (consume plan_id token hash now s).0
unfolding consume
consume-IsSpent j plan_id token hash now s v = record {
  single = after_verify-single plan_id _ (verify-single plan_id token hash now s v.single);
  inactive = elim (Bool-cases (text_eq j plan_id)) [
    | inl same ↦
        subst (λ k. state_of (get k (consume plan_id token hash now s).0.entries) ≢ some active)
          (sym ((text_eq_iff j plan_id).0 same))
          (rw ((consume_outcome plan_id token hash now s).1) (
            state_after-inactive (consume plan_id token hash now s).1 (get plan_id s.entries) (
              subst (λ k. state_of (get k s.entries) ≢ some active) ((text_eq_iff j plan_id).0 same)
                v.inactive)))
    | inr other ↦
        rw (consume-other j plan_id token hash now s (ground (arith, text_eq_iff j plan_id)))
          v.inactive
  ];
}

clear-IsSpent : (j : Text) (s : Store) → IsSpent j (clear s)
unfolding clear get
clear-IsSpent j s = record { single = tt; inactive = ground arith }

key_ne : {k j : Text} → k ≢ j → (k == j) ≡ false
key_ne {k} {j} h = ground (arith, text_eq_iff k j)

add_plan-IsSpent :
    (j : Text) (plan : Plan) (token : Text) (s : Store)
    → j ≢ plan.plan_id
    → IsSpent j s
    → IsSpent j (add_plan plan token s)
unfolding add_plan
add_plan-IsSpent j plan token s other v = record {
  single = put-HasDistinctKeys plan.plan_id _ s.entries v.single;
  inactive = rw (get-put plan.plan_id _ s.entries j) (rw (key_ne (λ h. other (sym h))) v.inactive);
}

released-active :
    (o : Option Entry) (token hash : Text) (now : ℕ) (plan : Plan)
    → Verified (ok plan) o token hash now
    → state_of o ≡ some active
released-active o token hash now plan (e, found, same, v) = rw found (ap some v.unused)

module _ (locale_compare : Text → Text → Sign) (sign : List ℕ → Plan → Text)
    (o : StoreOptions) where
  create-IsSpent :
      (now later : ℕ) (j uuid : Text) (d : Draft) (s : Store)
      → j ≢ uuid
      → IsSpent j s
      → IsSpent j (create locale_compare sign o now later uuid d s).0
  unfolding create store_plan complete
  create-IsSpent now later j uuid d s other v =
      elim (Bool-cases (ltb o.max_plan_bytes d.byte_size)) [
        | inl large ↦ rw (large, if◌then◌else◌) v
        | inr bounded ↦
            rw (bounded, if◌then◌else◌)
              (stored (
                evict_keeps (IsSpent j) (delete_entry-IsSpent j) locale_compare _ o d.byte_size _
                  (cleanup_keeps (IsSpent j) (delete_entry-IsSpent j) o later s v)))
      ]
    where
      stored : {t : Store} → IsSpent j t → IsSpent j (store_plan sign o (complete o now uuid d) t).0
      stored {t} w = elim (Bool-cases (is_full o d.byte_size t)) [
        | inl over ↦ rw (over, if◌then◌else◌) w
        | inr fits ↦
            rw (fits, if◌then◌else◌)
              (add_plan-IsSpent j (complete o now uuid d) (sign t.secret (complete o now uuid d)) t
                other w)
      ]

  -- The calls of the store, and the rounds of its timer, in any order and at any time. No call of
  -- `randomUUID` answers the identifier again.
  pub data Reach (j : Text) (s : Store) : Store → Type 0 where
    here : Reach j s s
    created :
        {t : Store} (now later : ℕ) (uuid : Text) (d : Draft)
        → Reach j s t
        → j ≢ uuid
        → Reach j s (create locale_compare sign o now later uuid d t).0
    verified :
        {t : Store} (plan_id token hash : Text) (now : ℕ)
        → Reach j s t
        → Reach j s (verify plan_id token hash now t).0
    consumed :
        {t : Store} (plan_id token hash : Text) (now : ℕ)
        → Reach j s t
        → Reach j s (consume plan_id token hash now t).0
    cleaned : {t : Store} (now : ℕ) → Reach j s t → Reach j s (cleanup o now t)
    cleared_all : {t : Store} → Reach j s t → Reach j s (clear t)

  Reach-IsSpent : (j : Text) (s t : Store) → Reach j s t → IsSpent j s → IsSpent j t
  Reach-IsSpent j s t here v = v
  Reach-IsSpent j s t (created now later uuid d r new) v =
      create-IsSpent now later j uuid d _ new (Reach-IsSpent j s _ r v)
  Reach-IsSpent j s t (verified plan_id token hash now r) v =
      verify-IsSpent j plan_id token hash now _ (Reach-IsSpent j s _ r v)
  Reach-IsSpent j s t (consumed plan_id token hash now r) v =
      consume-IsSpent j plan_id token hash now _ (Reach-IsSpent j s _ r v)
  Reach-IsSpent j s t (cleaned now r) v =
      cleanup_keeps (IsSpent j) (delete_entry-IsSpent j) o now _ (Reach-IsSpent j s _ r v)
  Reach-IsSpent j s t (cleared_all r) v = clear-IsSpent j _

  consumed-IsSpent :
      (j token hash : Text) (now : ℕ) (s : Store) (plan : Plan)
      → HasDistinctKeys s.entries
      → (consume j token hash now s).1 ≡ ok plan
      → IsSpent j (consume j token hash now s).0
  unfolding consume
  consumed-IsSpent j token hash now s plan single released = record {
    single = after_verify-single j _ (verify-single j token hash now s single);
    inactive = rw ((consume_outcome j token hash now s).1) (rw released (ground arith));
  }

  -- A plan is released at most once: when `consume` has returned a plan, no later `consume` of its
  -- identifier returns one, with whatever token and hash, and after whatever calls.
  pub no_replay :
      (j token hash : Text) (now : ℕ) (s t : Store) (plan : Plan)
      → HasDistinctKeys s.entries
      → (consume j token hash now s).1 ≡ ok plan
      → Reach j (consume j token hash now s).0 t
      → (token2 hash2 : Text) (now2 : ℕ) (plan2 : Plan)
      → (consume j token2 hash2 now2 t).1 ≢ ok plan2
  no_replay j token hash now s t plan single released r token2 hash2 now2 plan2 again =
      let v = Reach-IsSpent j _ t r (consumed-IsSpent j token hash now s plan single released) in
      v.inactive (
        released-active _ token2 hash2 now2 plan2 (
          subst (λ r. Verified r (get j t.entries) token2 hash2 now2) again
            (consume_outcome j token2 hash2 now2 t).0))
