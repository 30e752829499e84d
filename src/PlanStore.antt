-- ===== src/PlanStore.antt =====
-- packages/mcp/src/generation/plan-store.ts: the store of prepared generation plans. The clock, the
-- random identifiers and HMAC-SHA-256 are arguments; `onEvent` calls are kept in a log.
pub mod Eviction
pub mod Invariant
pub mod Creation
pub mod Access
pub mod Replay
pub mod Tests
use openapi_to.Common.{
  zero, suc, utf8, ◌-◌, sort, ◌==◌, ok, some, ltb, not, err, if◌then◌else◌, none, ◌||◌,
  text_equality, false, ◌++◌, ◌∷◌, Option, leb, ◌+◌, Result, true, [], Text, List, Bool, map,
  length, ℕ,
}
use openapi_to.Common.Dictionary.{get, put, delete}
use openapi_to.Common.Comparison.{Sign, compare_nat, or_else, le_by}

pub data PlanKind : Type 0 where
  full selective : PlanKind

pub record Plan : Type 0 where
  pub kind : PlanKind
  pub plan_id : Text
  pub plan_hash : Text
  pub authorization_context_hash : Text
  pub created_at : ℕ
  pub expires_at : ℕ
  pub workspace_hash : Text
  pub target : Text
  pub output_root : Text
  pub byte_size : ℕ

-- The plan that `create` is given, less the fields that it fills in.
pub record Draft : Type 0 where
  pub kind : PlanKind
  pub plan_hash : Text
  pub authorization_context_hash : Text
  pub workspace_hash : Text
  pub target : Text
  pub output_root : Text
  pub byte_size : ℕ

pub data EntryState : Type 0 where
  active used : EntryState

pub record Entry : Type 0 where
  pub plan : Plan
  pub token : Text
  pub state : EntryState
  pub last_accessed : ℕ

pub data Event : Type 0 where
  expired evicted cleared : Plan → Event

pub record StoreOptions : Type 0 where
  pub ttl_ms : ℕ
  pub max_plans : ℕ
  pub max_plan_bytes : ℕ
  pub max_total_plan_bytes : ℕ

pub record Store : Type 0 where
  pub secret : List ℕ
  pub entries : List (Text × Entry)
  pub total_bytes : ℕ
  pub access_sequence : ℕ
  pub events : List Event

pub data PlanError : Type 0 where
  plan_too_large plan_store_full plan_not_found plan_expired plan_already_used : PlanError
  plan_hash_mismatch plan_token_invalid : PlanError

-- `deleteEntry(planId, event)`
pub delete_entry : (Plan → Event) → Text → Store → Store
delete_entry event plan_id s = elim (get plan_id s.entries) [
  | none ↦ s
  | some e ↦ record s {
    entries = delete plan_id s.entries;
    total_bytes = s.total_bytes - e.plan.byte_size;
    events = s.events ++ event e.plan ∷ [];
  }
]

abbrev pub values : List (Text × Entry) → List Entry
values [] = []
values ((k, e) ∷ m) = e ∷ values m

-- The loop of `cleanup` over the entries as they stand when it begins.
cleanup_from : StoreOptions → ℕ → List Entry → Store → Store
cleanup_from o now [] s = s
cleanup_from o now (e ∷ es) s =
    cleanup_from o now es
      (if leb (e.plan.expires_at + o.ttl_ms) now then delete_entry expired e.plan.plan_id s else s)

pub cleanup : StoreOptions → ℕ → Store → Store
cleanup o now s = cleanup_from o now (values s.entries) s

-- A plan of `size` bytes does not fit.
abbrev pub is_full : StoreOptions → ℕ → Store → Bool
is_full o size s =
    leb o.max_plans (length s.entries) || ltb o.max_total_plan_bytes (s.total_bytes + size)

pub complete : StoreOptions → ℕ → Text → Draft → Plan
complete o now uuid d = record {
  kind = d.kind;
  plan_id = uuid;
  plan_hash = d.plan_hash;
  authorization_context_hash = d.authorization_context_hash;
  created_at = now;
  expires_at = now + o.ttl_ms;
  workspace_hash = d.workspace_hash;
  target = d.target;
  output_root = d.output_root;
  byte_size = d.byte_size;
}

-- `this.entries.set(…)` and what stands behind it.
pub add_plan : Plan → Text → Store → Store
add_plan plan token s = record s {
  entries =
      put plan.plan_id
        (record {
          plan = plan;
          token = token;
          state = active;
          last_accessed = s.access_sequence + 1;
        })
        s.entries;
  total_bytes = s.total_bytes + plan.byte_size;
  access_sequence = s.access_sequence + 1;
}

-- The end of `create`: the second test for room, then the token and the entry.
store_plan :
    (sign : List ℕ → Plan → Text)
    → StoreOptions
    → Plan
    → Store
    → Store × Result PlanError (Plan × Text)
store_plan sign o plan s =
    if is_full o plan.byte_size s
    then (s, err plan_store_full)
    else (add_plan plan (sign s.secret plan) s, ok (plan, sign s.secret plan))

first_entry : List Entry → Option Entry
first_entry [] = none
first_entry (e ∷ es) = some e

module _ (locale_compare : Text → Text → Sign) where
  compare_access : Entry → Entry → Sign
  compare_access l r =
      or_else (compare_nat l.last_accessed r.last_accessed)
        (locale_compare l.plan.plan_id r.plan.plan_id)

  -- `[...this.entries.values()].sort(…)[0]`
  pub oldest : Store → Option Entry
  oldest s = first_entry (sort (le_by compare_access) (values s.entries))

  -- The `while` loop of `create`; each round deletes an entry.
  pub evict : ℕ → StoreOptions → ℕ → Store → Store
  evict zero o size s = s
  evict (suc fuel) o size s = elim (oldest s) [
    | none ↦ s
    | some e ↦
        let rest = evict fuel o size (delete_entry evicted e.plan.plan_id s) in
        if is_full o size s then rest else s
  ]

  -- `now` is the first reading of the clock and `later` the one that `cleanup` makes.
  pub create :
      (sign : List ℕ → Plan → Text)
      → StoreOptions
      → (now later : ℕ) → Text
      → Draft
      → Store
      → Store × Result PlanError (Plan × Text)
  create sign o now later uuid d s =
      let cleaned = cleanup o later s in
      if ltb o.max_plan_bytes d.byte_size
      then (s, err plan_too_large)
      else store_plan sign o (complete o now uuid d)
          (evict (length cleaned.entries) o d.byte_size cleaned)

abbrev is_used : Entry → Bool
is_used e = elim e.state [ used ↦ true | active ↦ false ]

-- The tests of `verify` on the entry that it found.
check_entry : Entry → Text → Text → ℕ → Result PlanError Plan
check_entry e token approved_plan_hash now =
    if leb e.plan.expires_at now
    then err plan_expired
    else if is_used e
    then err plan_already_used
    else if not (e.plan.plan_hash == approved_plan_hash)
    then err plan_hash_mismatch
    else if not (utf8 token == utf8 e.token)
    then err plan_token_invalid
    else ok e.plan

-- `entry.lastAccessed = ++this.accessSequence`, and the new state of the entry.
touch : EntryState → Entry → Text → Store → Store
touch state e plan_id s = record s {
  entries =
      put plan_id (record e { state = state; last_accessed = s.access_sequence + 1 }) s.entries;
  access_sequence = s.access_sequence + 1;
}

pub verify : Text → Text → Text → ℕ → Store → Store × Result PlanError Plan
verify plan_id token approved_plan_hash now s = elim (get plan_id s.entries) [
  | none ↦ (s, err plan_not_found)
  | some e ↦ (touch e.state e plan_id s, check_entry e token approved_plan_hash now)
]

-- The part of `consume` behind `verify`.
mark_used : Text → Plan → Store → Store × Result PlanError Plan
mark_used plan_id plan s = elim (get plan_id s.entries) [
  | none ↦ (s, err plan_not_found)
  | some e ↦ (touch used e plan_id s, ok plan)
]

-- `verify` has thrown, or has returned the plan.
after_verify : Text → Store × Result PlanError Plan → Store × Result PlanError Plan
after_verify plan_id (s, ok plan) = mark_used plan_id plan s
after_verify plan_id (s, err e) = (s, err e)

pub consume : Text → Text → Text → ℕ → Store → Store × Result PlanError Plan
consume plan_id token approved_plan_hash now s =
    after_verify plan_id (verify plan_id token approved_plan_hash now s)

pub clear : Store → Store
clear s = record s {
  secret = map (λ _. 0) s.secret;
  entries = [];
  total_bytes = 0;
  events = s.events ++ map (λ e. cleared e.plan) (values s.entries);
}

abbrev pub size : Store → ℕ
size s = length s.entries
