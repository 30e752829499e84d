-- ===== src/Selection/Mutations.antt =====
-- What adding to a selection and replacing it do.
use openapi_to.Common.{
  sym, ◌⊎◌, inl, inr, text_equality, Bool, true, false, not, ◌&&◌, ◌||◌, ◌≡◌, refl, ◌≢◌, ap, subst,
  ◌∙◌, List, [], ◌++◌, Text, arith, contains, filter, SameElements, IsAscending, contains-filter,
  contains-append, filter-IsAscending, ◌>>=◌, Result, ok, err,
}
use openapi_to.Selection.{
  MergeResult, normalize_keys, Manifest, Mutation, MutationResult, MutationError, unsupported_type,
  add, replace, unsupported, MutationType, mutate, apply_operation_selection_mutation,
  merge_operation_selection, merge_result, normalize_operation_selection, map_result,
}
use openapi_to.Selection.Canonical.{
  contains-normalize_keys, normalize_keys-IsAscending, normalize_keys-eq_iff,
}

abbrev pub wanted : MutationType → List Text → List Text → Text → Bool
wanted add before asked k = contains before k || contains asked k
wanted replace before asked k = contains asked k
wanted unsupported before asked k = false

pub record IsMutation (m : Manifest) (mu : Mutation) (r : MutationResult) : Type 0 where
  pub desired :
      (k : Text)
      → contains r.manifest.operations k ≡ wanted mu.type m.operations mu.operation_keys k
  pub added :
      (k : Text)
      → contains r.newly_added_operation_keys k
        ≡ (contains mu.operation_keys k && not (contains m.operations k))
  pub already :
      (k : Text)
      → contains r.already_selected_operation_keys k
        ≡ (contains mu.operation_keys k && contains m.operations k)
  pub retained :
      (k : Text)
      → contains r.retained_operation_keys k
        ≡ (contains m.operations k && contains r.manifest.operations k)
  pub removed :
      (k : Text)
      → contains r.removed_operation_keys k
        ≡ (contains m.operations k && not (contains r.manifest.operations k))
  pub identity :
      (r.manifest.target ≡ m.target)
      × (r.manifest.selection_owner ≡ m.selection_owner)
      × (r.manifest.metadata ≡ m.metadata)
  pub ascending :
      IsAscending r.manifest.operations
      × IsAscending r.newly_added_operation_keys
      × IsAscending r.already_selected_operation_keys
      × IsAscending r.retained_operation_keys
      × IsAscending r.removed_operation_keys

module _ (m : Manifest) (ks : List Text) where
  before : List Text
  before = normalize_keys m.operations

  asked : List Text
  asked = normalize_keys ks

  filter-asked : (p : Text → Bool) (k : Text) → contains (filter p asked) k ≡ (p k && contains ks k)
  unfolding asked
  filter-asked p k = contains-filter p asked k ∙ ap (λ b. p k && b) (contains-normalize_keys ks k)

  filter-before :
      (p : Text → Bool) (k : Text) → contains (filter p before) k ≡ (p k && contains m.operations k)
  unfolding before
  filter-before p k =
      contains-filter p before k ∙ ap (λ b. p k && b) (contains-normalize_keys m.operations k)

  filter-asked-IsAscending : (p : Text → Bool) → IsAscending (filter p asked)
  unfolding asked
  filter-asked-IsAscending p = filter-IsAscending p asked (normalize_keys-IsAscending ks)

  filter-before-IsAscending : (p : Text → Bool) → IsAscending (filter p before)
  unfolding before
  filter-before-IsAscending p =
      filter-IsAscending p before (normalize_keys-IsAscending m.operations)

  desired_keys : List Text
  desired_keys = normalize_keys (before ++ asked)

  desired_of : (k : Text) → contains desired_keys k ≡ (contains m.operations k || contains ks k)
  unfolding before asked desired_keys
  desired_of k = ground (
    arith,
    contains-normalize_keys (before ++ asked) k,
    contains-append before asked k,
    contains-normalize_keys m.operations k,
    contains-normalize_keys ks k,
  )

  both :
      (k : Text)
      → contains (normalize_keys (normalize_keys (before ++ asked))) k
        ≡ (contains m.operations k || contains ks k)
  unfolding desired_keys
  both k = contains-normalize_keys (normalize_keys (before ++ asked)) k ∙ desired_of k

  in_before : (k : Text) → contains before k ≡ contains m.operations k
  unfolding before
  in_before k = contains-normalize_keys m.operations k

  in_asked : (k : Text) → contains asked k ≡ contains ks k
  unfolding asked
  in_asked k = contains-normalize_keys ks k

  new :
      (k : Text)
      → contains (filter (λ l. not (contains before l)) asked) k
        ≡ (contains ks k && not (contains m.operations k))
  new k = ground (arith, filter-asked (λ l. not (contains before l)) k, in_before k)

  old :
      (k : Text)
      → contains (filter (λ l. contains before l) asked) k
        ≡ (contains ks k && contains m.operations k)
  old k = ground (arith, filter-asked (λ l. contains before l) k, in_before k)

  nothing : (k : Text) → contains [] k ≡ false
  unfolding contains
  nothing k = refl

  mutate-IsMutation :
      (type : MutationType)
      → type ≢ unsupported
      → IsMutation m (record { type = type; operation_keys = ks }) (mutate m type before asked)
  unfolding mutate normalize_operation_selection
  mutate-IsMutation unsupported h = absurd (h refl)
  mutate-IsMutation add h = record {
    desired = both;
    added = new;
    already = old;
    retained = λ k. ground (arith, filter-before (λ l. true || contains asked l) k, both k);
    removed = λ k. ground (arith, both k, nothing k);
    identity = (refl, refl, refl);
    ascending = (
      normalize_keys-IsAscending (normalize_keys (before ++ asked)),
      filter-asked-IsAscending (λ l. not (contains before l)),
      filter-asked-IsAscending (λ l. contains before l),
      filter-before-IsAscending (λ l. true || contains asked l),
      tt,
    );
  }
  mutate-IsMutation replace h = record {
    desired = λ k. contains-normalize_keys asked k ∙ in_asked k;
    added = new;
    already = old;
    retained = λ k.
        ground (arith, filter-before (λ l. contains asked l) k, contains-normalize_keys asked k);
    removed = λ k.
        ground
          (arith, filter-before (λ l. not (contains asked l)) k, contains-normalize_keys asked k);
    identity = (refl, refl, refl);
    ascending = (
      normalize_keys-IsAscending asked,
      filter-asked-IsAscending (λ l. not (contains before l)),
      filter-asked-IsAscending (λ l. contains before l),
      filter-before-IsAscending (λ l. contains asked l),
      filter-before-IsAscending (λ l. not (contains asked l)),
    );
  }

-- A mutation that succeeds was `add` or `replace`. The selection then holds the keys that it held
-- before or was asked for (add), or those that it was asked for (replace). The other lists say, in
-- ascending order: which asked keys are new, which were selected already, which old keys stay and
-- which go. Target, owner and metadata are kept.
pub apply-IsMutation :
    (m : Manifest) (mu : Mutation) (r : MutationResult)
    → apply_operation_selection_mutation m mu ≡ ok r
    → IsMutation m mu r
unfolding apply_operation_selection_mutation before asked
apply-IsMutation m mu r e =
    let supported : mu.type ≢ unsupported = ground arith in
    let made : mutate m mu.type (before m mu.operation_keys) (asked m mu.operation_keys) ≡ r =
      ground arith in
    subst (IsMutation m mu) made (mutate-IsMutation m mu.operation_keys mu.type supported)

abbrev pub with_keys : MutationType → List Text → Mutation
with_keys type ks = record { type = type; operation_keys = ks }

abbrev pub manifest_of : Result MutationError MutationResult → Result MutationError Manifest
manifest_of = map_result (λ r. r.manifest)

-- Adding one list of keys and then another gives the manifest of adding both at once, in any
-- order: it never fails, and what is added is a set.
pub add-add :
    (m : Manifest) (ks ls js : List Text)
    → SameElements js (ks ++ ls)
    → manifest_of (
        apply_operation_selection_mutation m (with_keys add ks) >>= λ r.
        apply_operation_selection_mutation r.manifest (with_keys add ls))
      ≡ manifest_of (apply_operation_selection_mutation m (with_keys add js))
unfolding apply_operation_selection_mutation mutate normalize_operation_selection before asked
    desired_keys
add-add m ks ls js same =
    ap (λ ops. ok (record m { version = 1; operations = ops }))
      ((normalize_keys-eq_iff _ _).1 λ k. ground (
        arith,
        desired_of (record m { version = 1; operations = normalize_keys (desired_keys m ks) }) ls k,
        desired_of m js k,
        both m ks k,
        same k,
        contains-append ks ls k,
      ))

-- What a merge answers for an addition: the union of the keys, twice, and which of the asked keys were
-- selected before and which were not, in ascending order.
pub record IsMerge (m : Manifest) (asked_keys : List Text) (r : MergeResult) : Type 0 where
  pub operations :
      (k : Text)
      → contains r.manifest.operations k ≡ (contains m.operations k || contains asked_keys k)
  pub desired : r.desired_operation_keys ≡ r.manifest.operations
  pub previous : (k : Text) → contains r.previous_operation_keys k ≡ contains m.operations k
  pub requested : (k : Text) → contains r.requested_operation_keys k ≡ contains asked_keys k
  pub added :
      (k : Text)
      → contains r.newly_added_operation_keys k
        ≡ (contains asked_keys k && not (contains m.operations k))
  pub already :
      (k : Text)
      → contains r.already_selected_operation_keys k
        ≡ (contains asked_keys k && contains m.operations k)
  pub identity :
      (r.manifest.target ≡ m.target)
      × (r.manifest.selection_owner ≡ m.selection_owner)
      × (r.manifest.metadata ≡ m.metadata)
  pub ascending :
      IsAscending r.manifest.operations
      × IsAscending r.previous_operation_keys
      × IsAscending r.requested_operation_keys
      × IsAscending r.newly_added_operation_keys
      × IsAscending r.already_selected_operation_keys

module _ (m : Manifest) (ks : List Text) where
  merged : MergeResult
  unfolding before asked
  merged = merge_result (mutate m add (before m ks) (asked m ks))

  merged-IsMerge : IsMerge m ks merged
  unfolding merged merge_result mutate normalize_operation_selection before asked desired_keys
  merged-IsMerge = record {
    operations = both m ks;
    desired =
        (normalize_keys-eq_iff (before m ks ++ asked m ks) (desired_keys m ks)).1
          (λ k. sym (contains-normalize_keys (before m ks ++ asked m ks) k));
    previous = in_before m ks;
    requested = in_asked m ks;
    added = new m ks;
    already = old m ks;
    identity = (refl, refl, refl);
    ascending = (
      normalize_keys-IsAscending (desired_keys m ks),
      normalize_keys-IsAscending m.operations,
      normalize_keys-IsAscending ks,
      filter-asked-IsAscending m ks (λ l. not (contains (before m ks) l)),
      filter-asked-IsAscending m ks (λ l. contains (before m ks) l),
    );
  }

abbrev pub MergeOutcome : Manifest → Mutation → Type 0
MergeOutcome m mu =
    ((merge_operation_selection m mu ≡ err unsupported_type) × (mu.type ≢ add))
    ⊎ ((r : MergeResult) × (merge_operation_selection m mu ≡ ok r)
        × (mu.type ≡ add)
        × IsMerge m mu.operation_keys r)

merge_by_type :
    (m : Manifest) (type : MutationType) (ks : List Text)
    → MergeOutcome m (record { type = type; operation_keys = ks })
unfolding merge_operation_selection apply_operation_selection_mutation merged before asked
merge_by_type m add ks = inr (merged m ks, refl, refl, merged-IsMerge m ks)
merge_by_type m replace ks = inl (refl, λ e. cc e)
merge_by_type m unsupported ks = inl (refl, λ e. cc e)

-- A merge is refused exactly when its type is not `add`. Otherwise it succeeds: the selection holds the
-- keys that it held or was asked for, which are the desired keys; the answer names the previous and the
-- requested keys, and tells the new ones from those that were selected already, all in ascending order
-- and without repetition; target, owner and metadata are kept.
pub merge-MergeOutcome : (m : Manifest) (mu : Mutation) → MergeOutcome m mu
merge-MergeOutcome m mu = merge_by_type m mu.type mu.operation_keys
