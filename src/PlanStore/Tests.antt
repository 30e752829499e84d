-- ===== src/PlanStore/Tests.antt =====
-- Runs of the store of generation plans, and its theorems at concrete inputs.
use openapi_to.Common.{
  utf8, text_eq, insert, text_equality, text, Text, sort, ◌∷◌, [], ◌≡◌, ◌≢◌, refl, ok, none, ℕ,
  List, arith,
}
use openapi_to.Common.Dictionary.{delete, put, get, HasDistinctKeys}
use openapi_to.Common.Comparison.{compare_nat, Sign, zero}
use openapi_to.PlanStore.{
  clear, compare_access, touch, mark_used, after_verify, check_entry, delete_entry, add_plan,
  first_entry, oldest, cleanup_from, evict, store_plan, complete, Plan, Draft, full, Store,
  StoreOptions, create, verify, consume, cleanup, evicted,
}
use openapi_to.PlanStore.Eviction.{IsConsistent}
use openapi_to.PlanStore.Invariant.{IsValid}
use openapi_to.PlanStore.Creation.{operations-IsValid, create_outcome, Created}
use openapi_to.PlanStore.Access.{
  Verified, verify_outcome, consume_outcome, consume-other, state_of, state_after,
}
use openapi_to.PlanStore.Replay.{here, no_replay, cleaned}

abbrev options : StoreOptions
options = record { ttl_ms = 100; max_plans = 1; max_plan_bytes = 50; max_total_plan_bytes = 60 }

abbrev draft : Draft
draft = record {
  kind = full;
  plan_hash = text "h";
  authorization_context_hash = text "c";
  workspace_hash = text "w";
  target = text "t";
  output_root = text "o";
  byte_size = 40;
}

abbrev empty : Store
empty = record { secret = 7 ∷ []; entries = []; total_bytes = 0; access_sequence = 0; events = [] }

abbrev locale_compare : Text → Text → Sign
locale_compare l r = zero

abbrev sign : List ℕ → Plan → Text
sign secret plan = secret

abbrev one : Store
one = (create locale_compare sign options 10 11 (text "a") draft empty).0

abbrev two : Store
two = (create locale_compare sign options 20 21 (text "b") draft one).0

run : Unit {0}
unfolding create verify consume cleanup get sort insert store_plan evict complete cleanup_from
    oldest first_entry add_plan delete_entry put delete check_entry after_verify mark_used touch
    compare_access compare_nat text_eq text utf8
run = tt

two_events : two.events ≡ evicted (complete options 10 (text "a") draft) ∷ []
unfolding run
two_events = refl

abbrev used_up : Store
used_up = (consume (text "b") (7 ∷ []) (text "h") 30 two).0

released :
    (consume (text "b") (7 ∷ []) (text "h") 30 two).1 ≡ ok (complete options 20 (text "b") draft)
unfolding run
released = refl

distinct_two : HasDistinctKeys two.entries
unfolding run
distinct_two = (refl, tt)

IsConsistent-one : IsConsistent one
unfolding run
IsConsistent-one = record {
  total = refl;
  keyed = (refl, tt);
  distinct = (refl, tt);
  recent = (omega arith, tt);
}

IsValid-one : IsValid options one
unfolding run
IsValid-one = record { consistent = IsConsistent-one; few = omega arith; small = omega arith }

b_is_new : get (text "b") one.entries ≡ none
unfolding run
b_is_new = refl

operations-IsValid_example :
    IsValid options two
    × IsValid options (verify (text "a") (7 ∷ []) (text "h") 20 one).0
    × IsValid options (consume (text "a") (7 ∷ []) (text "h") 20 one).0
    × IsValid options (cleanup options 21 one)
    × IsValid options (clear one)
operations-IsValid_example =
    operations-IsValid locale_compare sign options 20 21 (text "b") draft (text "a") (7 ∷ [])
      (text "h") one IsValid-one b_is_new

create_outcome_example :
    Created locale_compare sign options 20 21
      (text "b")
      draft
      one
      (create locale_compare sign options 20 21 (text "b") draft one).1
create_outcome_example =
    create_outcome locale_compare sign options 20 21 (text "b") draft one IsConsistent-one

verify_outcome_example :
    Verified
      (verify (text "b") (7 ∷ []) (text "h") 130 two).1
      (get (text "b") two.entries)
      (7 ∷ [])
      (text "h")
      130
verify_outcome_example = verify_outcome (text "b") (7 ∷ []) (text "h") 130 two

consume_outcome_example :
    Verified
      (consume (text "b") (7 ∷ []) (text "h") 30 two).1
      (get (text "b") two.entries)
      (7 ∷ [])
      (text "h")
      30
    × (state_of (get (text "b") used_up.entries)
        ≡ state_after
            (consume (text "b") (7 ∷ []) (text "h") 30 two).1
            (get (text "b") two.entries))
consume_outcome_example = consume_outcome (text "b") (7 ∷ []) (text "h") 30 two

a_is_not_b : text "a" ≢ text "b"
unfolding text
a_is_not_b = ground arith

consume-other_example :
    get (text "a") (consume (text "b") (7 ∷ []) (text "h") 30 one).0.entries
    ≡ get (text "a") one.entries
consume-other_example = consume-other (text "a") (text "b") (7 ∷ []) (text "h") 30 one a_is_not_b

no_replay_example :
    (consume (text "b") (7 ∷ []) (text "h") 32 (cleanup options 31 used_up)).1
    ≢ ok (complete options 20 (text "b") draft)
no_replay_example =
    no_replay locale_compare sign options (text "b") (7 ∷ []) (text "h") 30 two
      (cleanup options 31 used_up) (complete options 20 (text "b") draft) distinct_two released
      (cleaned 31 here) (7 ∷ []) (text "h") 32 (complete options 20 (text "b") draft)
