-- ===== src/PlanStore/Eviction.antt =====
-- The consistency of the store's fields, and the loop that makes room for a plan.
use openapi_to.Common.{
  true, leb, zero, if◌then◌else◌, All-sort, Bool-cases, All-imp, value_of, ◌⊎◌, inr, text_equality,
  text_eq_iff, subst, refl, false, inl, ◌≤◌, ◌+◌, arith, Bool, [], suc, All, Option-cases, ◌≢◌,
  length, ◌∷◌, insert, some, none, ℕ, ◌≡◌, Text, List, sort,
}
use openapi_to.Common.Dictionary.{
  get, HasDistinctKeys, sum_by, sum_by-delete, delete-HasDistinctKeys, All-delete, length-delete,
}
use openapi_to.Common.Comparison.{Sign, le_by}
use openapi_to.PlanStore.{
  Plan, Entry, Store, StoreOptions, Event, expired, evicted, delete_entry, values, cleanup_from,
  cleanup, oldest, first_entry, is_full, evict, compare_access,
}

abbrev pub entry_bytes : Entry → ℕ
entry_bytes e = e.plan.byte_size

-- The counters agree with the entries, and each entry stands under the identifier of its plan.
pub record IsConsistent (s : Store) : Type 0 where
  pub total : s.total_bytes ≡ sum_by entry_bytes s.entries
  pub keyed : All (λ p. p.1.plan.plan_id ≡ p.0) s.entries
  pub distinct : HasDistinctKeys s.entries
  pub recent : All (λ p. p.1.last_accessed ≤ s.access_sequence) s.entries

pub delete_entry-IsConsistent :
    (event : Plan → Event) (plan_id : Text) (s : Store)
    → IsConsistent s
    → IsConsistent (delete_entry event plan_id s)
unfolding delete_entry
delete_entry-IsConsistent event plan_id s c = elim (Option-cases (get plan_id s.entries)) [
  | inl missing ↦ rw (missing, delete_entry) c
  | inr (e, found) ↦
      rw (found, delete_entry)
        (record {
          total = omega (arith, sum_by-delete entry_bytes plan_id s.entries e found, c.total);
          keyed = All-delete (λ p. p.1.plan.plan_id ≡ p.0) plan_id s.entries c.keyed;
          distinct = delete-HasDistinctKeys plan_id s.entries c.distinct;
          recent =
              All-delete (λ p. p.1.last_accessed ≤ s.access_sequence) plan_id s.entries c.recent;
        })
]

pub delete_entry-shrinks :
    (event : Plan → Event) (plan_id : Text) (s : Store)
    → get plan_id s.entries ≢ none
    → length (delete_entry event plan_id s).entries + 1 ≡ length s.entries
unfolding delete_entry
delete_entry-shrinks event plan_id s h = elim (Option-cases (get plan_id s.entries)) [
  | inl missing ↦ absurd (h missing)
  | inr (e, found) ↦ rw (found, delete_entry) (length-delete plan_id s.entries e found)
]

-- Deleting only takes away.
pub delete_entry-le :
    (event : Plan → Event) (plan_id : Text) (s : Store)
    → (length (delete_entry event plan_id s).entries ≤ length s.entries)
      × ((delete_entry event plan_id s).total_bytes ≤ s.total_bytes)
      × ((delete_entry event plan_id s).access_sequence ≡ s.access_sequence)
unfolding delete_entry
delete_entry-le event plan_id s = elim (Option-cases (get plan_id s.entries)) [
  | inl missing ↦ rw (missing, delete_entry) (omega arith)
  | inr (e, found) ↦
      rw (found, delete_entry) (omega (arith, length-delete plan_id s.entries e found))
]

-- What deleting an entry preserves, `cleanup` and the eviction loop preserve.
module _ {ℓ} (Q : Store → Type ℓ)
    (keep : (event : Plan → Event) (plan_id : Text) (s : Store)
      → Q s
      → Q (delete_entry event plan_id s)) where
  cleanup_from_keeps :
      (o : StoreOptions) (now : ℕ) (es : List Entry) (s : Store) → Q s → Q (cleanup_from o now es s)
  unfolding cleanup_from
  cleanup_from_keeps o now [] s q = q
  cleanup_from_keeps o now (e ∷ es) s q =
      cleanup_from_keeps o now es _
        (choose (leb (e.plan.expires_at + o.ttl_ms) now) (keep expired e.plan.plan_id s q) q)
    where
      choose : {a b : Store} (t : Bool) → Q a → Q b → Q (if t then a else b)
      choose true x y = x
      choose false x y = y

  pub cleanup_keeps : (o : StoreOptions) (now : ℕ) (s : Store) → Q s → Q (cleanup o now s)
  unfolding cleanup
  cleanup_keeps o now s q = cleanup_from_keeps o now (values s.entries) s q

  pub evict_keeps :
      (locale_compare : Text → Text → Sign) (fuel : ℕ) (o : StoreOptions) (size : ℕ) (s : Store)
      → Q s
      → Q (evict locale_compare fuel o size s)
  unfolding evict
  evict_keeps lc zero o size s q = q
  evict_keeps lc (suc fuel) o size s q = elim (Option-cases (oldest lc s)) [
    | inl missing ↦ rw (missing, evict) q
    | inr (e, found) ↦ elim (Bool-cases (is_full o size s)) [
      | inl over ↦
          rw (found, evict)
            (rw (over, if◌then◌else◌)
              (evict_keeps lc fuel o size _ (keep evicted e.plan.plan_id s q)))
      | inr fits ↦ rw (found, evict) (rw (fits, if◌then◌else◌) q)
    ]
  ]

present :
    (m : List (Text × Entry))
    → All (λ p. p.1.plan.plan_id ≡ p.0) m
    → All (λ e. get e.plan.plan_id m ≢ none) (values m)
unfolding get
present [] h = tt
present ((k, e) ∷ m) h = (
  ground (arith, text_eq_iff k e.plan.plan_id, h.0),
  All-imp (λ f. get f.plan.plan_id m ≢ none) (λ f. get f.plan.plan_id ((k, e) ∷ m) ≢ none)
      (values m) (λ f old. ground arith) (present m h.1),
)

insert-ne-nil : (le : Entry → Entry → Bool) (e : Entry) (es : List Entry) → insert le e es ≢ []
unfolding insert
insert-ne-nil le e [] = ground arith
insert-ne-nil le e (f ∷ es) = ground arith

sort-ne-nil : (le : Entry → Entry → Bool) (e : Entry) (es : List Entry) → sort le (e ∷ es) ≢ []
unfolding sort
sort-ne-nil le e es = insert-ne-nil le e (sort le es)

module _ (locale_compare : Text → Text → Sign) where
  oldest-present :
      (s : Store) {e : Entry}
      → IsConsistent s
      → oldest locale_compare s ≡ some e
      → get e.plan.plan_id s.entries ≢ none
  unfolding oldest first_entry
  oldest-present s {e} c h =
      from (sort (le_by (compare_access locale_compare)) (values s.entries))
        (All-sort (le_by (compare_access locale_compare)) (λ f. get f.plan.plan_id s.entries ≢ none)
          (values s.entries) (present s.entries c.keyed))
        h
    where
      from :
          (es : List Entry)
          → All (λ f. get f.plan.plan_id s.entries ≢ none) es
          → first_entry es ≡ some e
          → get e.plan.plan_id s.entries ≢ none
      from [] a h = ground arith
      from (f ∷ es) a h =
          subst (λ (g : Entry). get g.plan.plan_id s.entries ≢ none) (value_of h) a.0

  oldest-none : (s : Store) → oldest locale_compare s ≡ none → length s.entries ≡ 0
  unfolding oldest first_entry
  oldest-none s h = from s.entries (first_none _ h)
    where
      first_none : (es : List Entry) → first_entry es ≡ none → es ≡ []
      first_none [] h = refl
      first_none (e ∷ es) h = cc

      from :
          (m : List (Text × Entry))
          → sort (le_by (compare_access locale_compare)) (values m) ≡ []
          → length m ≡ 0
      from [] h = refl
      from ((k, e) ∷ m) h =
          absurd (sort-ne-nil (le_by (compare_access locale_compare)) e (values m) h)

  -- With a round for each entry, the plan fits at the end or nothing is left.
  pub evict-makes_room :
      (fuel : ℕ) (o : StoreOptions) (size : ℕ) (s : Store)
      → IsConsistent s
      → length s.entries ≤ fuel
      → (is_full o size (evict locale_compare fuel o size s) ≡ false)
        ⊎ (length (evict locale_compare fuel o size s).entries ≡ 0)
  unfolding evict
  evict-makes_room zero o size s c h = inr (omega arith)
  evict-makes_room (suc fuel) o size s c h = elim (Option-cases (oldest locale_compare s)) [
    | inl missing ↦ rw (missing, evict) (inr (oldest-none s missing))
    | inr (e, found) ↦ elim (Bool-cases (is_full o size s)) [
      | inl over ↦
          rw (found, evict)
            (rw (over, if◌then◌else◌)
              (evict-makes_room fuel o size (delete_entry evicted e.plan.plan_id s)
                (delete_entry-IsConsistent evicted e.plan.plan_id s c)
                (omega (
                  arith,
                  delete_entry-shrinks evicted e.plan.plan_id s (oldest-present s c found),
                ))))
      | inr fits ↦ rw (found, evict) (rw (fits, if◌then◌else◌) (inl fits))
    ]
  ]
