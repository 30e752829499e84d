-- ===== src/PlanStore/Invariant.antt =====
-- What the operations of the store preserve, except for `create`.
use openapi_to.Common.{
  ok, err, Result, refl, List, All-imp, text_equality, inr, ◌+◌, inl, none, some, arith, ◌≤◌, ◌≡◌,
  ℕ, Option-cases, length, Text,
}
use openapi_to.Common.Dictionary.{
  get-delete-none, get, sum_by-put_new, sum_by-put_old, put-HasDistinctKeys, All-put,
  length-put_old, get-All,
}
use openapi_to.PlanStore.{
  Event, after_verify, Plan, Entry, EntryState, active, used, Store, StoreOptions, PlanError,
  delete_entry, add_plan, verify, consume, clear, touch, mark_used,
}
use openapi_to.PlanStore.Eviction.{
  IsConsistent, entry_bytes, delete_entry-IsConsistent, delete_entry-le,
}

-- The store is consistent and within the limits that it was built with.
pub record IsValid (o : StoreOptions) (s : Store) : Type 0 where
  pub consistent : IsConsistent s
  pub few : length s.entries ≤ o.max_plans
  pub small : s.total_bytes ≤ o.max_total_plan_bytes

pub add_plan-IsConsistent :
    (plan : Plan) (token : Text) (s : Store)
    → IsConsistent s
    → get plan.plan_id s.entries ≡ none
    → IsConsistent (add_plan plan token s)
unfolding add_plan
add_plan-IsConsistent plan token s c new = record {
  total = omega (
    arith,
    sum_by-put_new entry_bytes plan.plan_id
        (record {
          plan = plan;
          token = token;
          state = active;
          last_accessed = s.access_sequence + 1;
        })
        s.entries new,
    c.total,
  );
  keyed = All-put (λ p. p.1.plan.plan_id ≡ p.0) plan.plan_id _ s.entries refl c.keyed;
  distinct = put-HasDistinctKeys plan.plan_id _ s.entries c.distinct;
  recent =
      All-put (λ p. p.1.last_accessed ≤ s.access_sequence + 1) plan.plan_id _ s.entries
        (omega arith)
        (All-imp (λ p. p.1.last_accessed ≤ s.access_sequence)
          (λ p. p.1.last_accessed ≤ s.access_sequence + 1) s.entries (λ p h. omega arith) c.recent);
}

touch-IsConsistent :
    (state : EntryState) (e : Entry) (plan_id : Text) (s : Store)
    → IsConsistent s
    → get plan_id s.entries ≡ some e
    → IsConsistent (touch state e plan_id s)
unfolding touch
touch-IsConsistent state e plan_id s c found = record {
  total = omega (
    arith,
    sum_by-put_old entry_bytes plan_id
        (record e { state = state; last_accessed = s.access_sequence + 1 }) e s.entries found,
    c.total,
  );
  keyed =
      All-put (λ p. p.1.plan.plan_id ≡ p.0) plan_id _ s.entries
        (get-All (λ p. p.1.plan.plan_id ≡ p.0) plan_id e s.entries c.keyed found) c.keyed;
  distinct = put-HasDistinctKeys plan_id _ s.entries c.distinct;
  recent =
      All-put (λ p. p.1.last_accessed ≤ s.access_sequence + 1) plan_id _ s.entries (omega arith)
        (All-imp (λ p. p.1.last_accessed ≤ s.access_sequence)
          (λ p. p.1.last_accessed ≤ s.access_sequence + 1) s.entries (λ p h. omega arith) c.recent);
}

touch-IsValid :
    (o : StoreOptions) (state : EntryState) (e : Entry) (plan_id : Text) (s : Store)
    → IsValid o s
    → get plan_id s.entries ≡ some e
    → IsValid o (touch state e plan_id s)
unfolding touch
touch-IsValid o state e plan_id s v found = record {
  consistent = touch-IsConsistent state e plan_id s v.consistent found;
  few = omega (
    arith,
    length-put_old plan_id (record e { state = state; last_accessed = s.access_sequence + 1 }) e
        s.entries found,
    v.few,
  );
  small = v.small;
}

pub verify-IsValid :
    (o : StoreOptions) (plan_id token hash : Text) (now : ℕ) (s : Store)
    → IsValid o s
    → IsValid o (verify plan_id token hash now s).0
unfolding verify
verify-IsValid o plan_id token hash now s v = elim (Option-cases (get plan_id s.entries)) [
  | inl missing ↦ rw (missing, verify) v
  | inr (e, found) ↦ rw (found, verify) (touch-IsValid o e.state e plan_id s v found)
]

mark_used-IsValid :
    (o : StoreOptions) (plan_id : Text) (plan : Plan) (s : Store)
    → IsValid o s
    → IsValid o (mark_used plan_id plan s).0
unfolding mark_used
mark_used-IsValid o plan_id plan s v = elim (Option-cases (get plan_id s.entries)) [
  | inl missing ↦ rw (missing, mark_used) v
  | inr (e, found) ↦ rw (found, mark_used) (touch-IsValid o used e plan_id s v found)
]

after_verify-IsValid :
    (o : StoreOptions) (plan_id : Text) (r : Store × Result PlanError Plan)
    → IsValid o r.0
    → IsValid o (after_verify plan_id r).0
unfolding after_verify
after_verify-IsValid o plan_id (s, ok plan) v = mark_used-IsValid o plan_id plan s v
after_verify-IsValid o plan_id (s, err e) v = v

pub consume-IsValid :
    (o : StoreOptions) (plan_id token hash : Text) (now : ℕ) (s : Store)
    → IsValid o s
    → IsValid o (consume plan_id token hash now s).0
unfolding consume
consume-IsValid o plan_id token hash now s v =
    after_verify-IsValid o plan_id (verify plan_id token hash now s)
      (verify-IsValid o plan_id token hash now s v)

pub clear-IsValid : (o : StoreOptions) (s : Store) → IsValid o (clear s)
unfolding clear
clear-IsValid o s = record {
  consistent = record { total = refl; keyed = tt; distinct = tt; recent = tt };
  few = omega arith;
  small = omega arith;
}

pub delete_entry-IsValid :
    (o : StoreOptions) (event : Plan → Event) (plan_id : Text) (s : Store)
    → IsValid o s
    → IsValid o (delete_entry event plan_id s)
delete_entry-IsValid o event plan_id s v = record {
  consistent = delete_entry-IsConsistent event plan_id s v.consistent;
  few = omega (arith, delete_entry-le event plan_id s, v.few);
  small = omega (arith, delete_entry-le event plan_id s, v.small);
}

pub delete_entry-absent :
    (j : Text) (event : Plan → Event) (plan_id : Text) (s : Store)
    → get j s.entries ≡ none
    → get j (delete_entry event plan_id s).entries ≡ none
unfolding delete_entry
delete_entry-absent j event plan_id s h = elim (Option-cases (get plan_id s.entries)) [
  | inl missing ↦ rw (missing, delete_entry) h
  | inr (e, found) ↦ rw (found, delete_entry) (get-delete-none j plan_id s.entries h)
]

pub delete_entry-secret :
    {k : List ℕ} (event : Plan → Event) (plan_id : Text) (s : Store)
    → s.secret ≡ k
    → (delete_entry event plan_id s).secret ≡ k
unfolding delete_entry
delete_entry-secret event plan_id s h = ground arith
