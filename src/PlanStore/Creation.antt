-- ===== src/PlanStore/Creation.antt =====
-- What `create` answers, and that every operation keeps the store valid.
use openapi_to.Common.{
  ap, ltb→lt, ◌∙◌, ltb, Bool-cases, if◌then◌else◌, ok, ◌⊎◌, [], ◌<◌, err, Result, false, ◌∷◌, refl,
  List, text_equality, inr, ◌+◌, inl, none, arith, ◌≤◌, ◌≡◌, ℕ, length, Text,
}
use openapi_to.Common.Dictionary.{get, sum_by, length-put_new}
use openapi_to.Common.Comparison.{Sign}
use openapi_to.PlanStore.{
  store_plan, Event, Plan, Draft, Entry, active, Store, StoreOptions, PlanError, plan_too_large,
  plan_store_full, delete_entry, cleanup, is_full, evict, complete, add_plan, create, verify,
  consume, clear,
}
use openapi_to.PlanStore.Eviction.{
  IsConsistent, entry_bytes, delete_entry-IsConsistent, cleanup_keeps, evict_keeps,
  evict-makes_room,
}
use openapi_to.PlanStore.Invariant.{
  IsValid, add_plan-IsConsistent, delete_entry-absent, delete_entry-secret, delete_entry-IsValid,
  verify-IsValid, consume-IsValid, clear-IsValid,
}

sum_by-nil : (m : List (Text × Entry)) → length m ≡ 0 → sum_by entry_bytes m ≡ 0
sum_by-nil [] h = refl
sum_by-nil (p ∷ m) h = absurd (omega arith)

module _ (sign : List ℕ → Plan → Text) (o : StoreOptions) (plan : Plan) (s : Store) where
  added_few :
      get plan.plan_id s.entries ≡ none
      → is_full o plan.byte_size s ≡ false
      → length (add_plan plan (sign s.secret plan) s).entries ≤ o.max_plans
  unfolding add_plan
  added_few new fits = ground (
    arith,
    length-put_new plan.plan_id
        (record {
          plan = plan;
          token = sign s.secret plan;
          state = active;
          last_accessed = s.access_sequence + 1;
        })
        s.entries new,
  )

  store_plan-IsValid :
      IsValid o s → get plan.plan_id s.entries ≡ none → IsValid o (store_plan sign o plan s).0
  unfolding store_plan add_plan
  store_plan-IsValid v new = elim (Bool-cases (is_full o plan.byte_size s)) [
    | inl over ↦ rw (over, if◌then◌else◌) v
    | inr fits ↦
        rw (fits, if◌then◌else◌)
          (record {
            consistent = add_plan-IsConsistent plan (sign s.secret plan) s v.consistent new;
            few = added_few new fits;
            small = added_small fits;
          })
  ]
    where
      added_small :
          is_full o plan.byte_size s ≡ false
          → (add_plan plan (sign s.secret plan) s).total_bytes ≤ o.max_total_plan_bytes
      added_small fits = ground arith

  -- With room made, only the limits can refuse the plan.
  store_plan_outcome :
      IsConsistent s
      → (is_full o plan.byte_size s ≡ false) ⊎ (length s.entries ≡ 0)
      → ((store_plan sign o plan s).1 ≡ err plan_store_full)
          × ((o.max_plans ≡ 0) ⊎ (o.max_total_plan_bytes < plan.byte_size))
        ⊎ ((store_plan sign o plan s).1 ≡ ok (plan, sign s.secret plan))
          × (0 < o.max_plans)
          × (plan.byte_size ≤ o.max_total_plan_bytes)
  unfolding store_plan
  store_plan_outcome c (inl fits) =
      rw (fits, if◌then◌else◌) (inr (refl, ground arith, ground arith))
  store_plan_outcome c (inr empty) =
      let zero : s.total_bytes ≡ 0 = c.total ∙ sum_by-nil s.entries empty in
      elim (Bool-cases (is_full o plan.byte_size s)) [
        | inl over ↦ rw (over, if◌then◌else◌) (inl (refl, ground arith))
        | inr fits ↦ rw (fits, if◌then◌else◌) (inr (refl, ground arith, ground arith))
      ]

module _ (locale_compare : Text → Text → Sign) (sign : List ℕ → Plan → Text) (o : StoreOptions)
    (now later : ℕ) (uuid : Text) (d : Draft) (s : Store) where
  -- The store that `create` leaves before it adds the plan.
  roomy : Store
  roomy =
      evict locale_compare (length (cleanup o later s).entries) o d.byte_size (cleanup o later s)

  module _ {ℓ} (Q : Store → Type ℓ)
      (keep : (event : Plan → Event) (plan_id : Text) (t : Store)
        → Q t
        → Q (delete_entry event plan_id t)) where
    roomy_keeps : Q s → Q roomy
    unfolding roomy
    roomy_keeps q =
        evict_keeps Q keep locale_compare _ o d.byte_size _ (cleanup_keeps Q keep o later s q)

  made_room : IsConsistent s → (is_full o d.byte_size roomy ≡ false) ⊎ (length roomy.entries ≡ 0)
  unfolding roomy
  made_room c =
      evict-makes_room locale_compare (length (cleanup o later s).entries) o d.byte_size
        (cleanup o later s) (cleanup_keeps IsConsistent delete_entry-IsConsistent o later s c)
        (omega arith)

  create-IsValid :
      IsValid o s
      → get uuid s.entries ≡ none
      → IsValid o (create locale_compare sign o now later uuid d s).0
  unfolding create roomy complete
  create-IsValid v new = elim (Bool-cases (ltb o.max_plan_bytes d.byte_size)) [
    | inl large ↦ rw (large, if◌then◌else◌) v
    | inr bounded ↦
        rw (bounded, if◌then◌else◌)
          (store_plan-IsValid sign o (complete o now uuid d) roomy
            (roomy_keeps (IsValid o) (delete_entry-IsValid o) v)
            (roomy_keeps (λ t. get uuid t.entries ≡ none) (delete_entry-absent uuid) new))
  ]

  abbrev pub Created : Result PlanError (Plan × Text) → Type 0
  Created (err plan_too_large) = o.max_plan_bytes < d.byte_size
  Created (err plan_store_full) =
      (d.byte_size ≤ o.max_plan_bytes)
      × ((o.max_plans ≡ 0) ⊎ (o.max_total_plan_bytes < d.byte_size))
  Created (ok (plan, token)) =
      (plan ≡ complete o now uuid d)
      × (token ≡ sign s.secret plan)
      × (d.byte_size ≤ o.max_plan_bytes)
      × (0 < o.max_plans)
      × (d.byte_size ≤ o.max_total_plan_bytes)
  Created _ = ⊥

  -- Whether a plan is accepted depends on its size and on the limits alone, never on what the store
  -- holds, since `create` evicts as many plans as it takes: the plan exceeds the limit of one plan,
  -- or it would not fit in an empty store, or it is stored with a token signed over it.
  pub create_outcome : IsConsistent s → Created (create locale_compare sign o now later uuid d s).1
  unfolding create roomy complete
  create_outcome c = elim (Bool-cases (ltb o.max_plan_bytes d.byte_size)) [
    | inl large ↦ rw (large, if◌then◌else◌) (ltb→lt _ _ large)
    | inr bounded ↦
        rw (bounded, if◌then◌else◌)
          (elim (store_plan_outcome sign o (complete o now uuid d) roomy
            (roomy_keeps IsConsistent delete_entry-IsConsistent c) (made_room c)) [
              | inl (refused, why) ↦ rw refused (ground arith, why)
              | inr (stored, plans, bytes) ↦ rw stored (
                refl,
                ap (λ k. sign k (complete o now uuid d))
                    (roomy_keeps (λ t. t.secret ≡ s.secret) delete_entry-secret refl),
                ground arith,
                plans,
                bytes,
              )
            ])
  ]

-- Every operation keeps a valid store valid: the counter of bytes agrees with the entries, the limits
-- hold, each plan has one entry, under its own identifier, and no access is later than the counter
-- of accesses. `create` is given an identifier that is new.
pub operations-IsValid :
    (locale_compare : Text → Text → Sign) (sign : List ℕ → Plan → Text) (o : StoreOptions)
    (now later : ℕ) (uuid : Text) (d : Draft) (plan_id token hash : Text) (s : Store)
    → IsValid o s
    → get uuid s.entries ≡ none
    → IsValid o (create locale_compare sign o now later uuid d s).0
      × IsValid o (verify plan_id token hash now s).0
      × IsValid o (consume plan_id token hash now s).0
      × IsValid o (cleanup o later s)
      × IsValid o (clear s)
operations-IsValid locale_compare sign o now later uuid d plan_id token hash s v new = (
  create-IsValid locale_compare sign o now later uuid d s v new,
  verify-IsValid o plan_id token hash now s v,
  consume-IsValid o plan_id token hash now s v,
  cleanup_keeps (IsValid o) (delete_entry-IsValid o) o later s v,
  clear-IsValid o s,
)
