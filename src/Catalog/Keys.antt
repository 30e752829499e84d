-- ===== src/Catalog/Keys.antt =====
-- When an operation is known by its id, and when the keys of all operations differ.
use openapi_to.Common.{
  value_of, text_equality, nat_equality, ℕ, ◌+◌, ◌≤◌, Text, Bool, true, false, Option, none, some,
  List, [], ◌∷◌, map, contains, nat_eq, IsNub, All, ◌≡◌, ◌≢◌, ◌⊎◌, refl, sym, ap, ◌∙◌, subst, arith,
  Bool-cases, Option-cases, inl, inr, text_eq, text_eq_iff, if◌then◌else◌,
}
use openapi_to.Common.Dictionary.{get, get-put}
use openapi_to.Catalog.{
  OperationIdentityInput, or_zero, count_id, count_ids, is_one, fallback, operation_key_of,
  assign_each, assign_operation_identities,
}

-- The id of the operation is the text.
abbrev has_id : Text → OperationIdentityInput → Bool
has_id id o = elim o.operation_id [ none ↦ false | some t ↦ text_eq t id ]

-- How many operations have the id.
abbrev pub occurrences : Text → List OperationIdentityInput → ℕ
occurrences id [] = 0
occurrences id (o ∷ os) = (if has_id id o then 1 else 0) + occurrences id os

count_id-counts :
    (id : Text) (o : Option Text) (counts : List (Text × ℕ))
    → id ≢ []
    → or_zero (get id (count_id o counts))
      ≡ (if (elim o [ none ↦ false | some t ↦ text_eq t id ]) then 1 else 0)
        + or_zero (get id counts)
unfolding count_id
count_id-counts id none counts h = omega arith
count_id-counts id (some []) counts h = ground (arith, text_eq_iff [] id)
count_id-counts id (some (c ∷ cs)) counts h =
    ground (
      arith,
      get-put (c ∷ cs) (or_zero (get (c ∷ cs) counts) + 1) counts id,
      text_eq_iff (c ∷ cs) id,
    )

count_ids-counts :
    (id : Text) (os : List OperationIdentityInput) (counts : List (Text × ℕ))
    → id ≢ []
    → or_zero (get id (count_ids os counts)) ≡ occurrences id os + or_zero (get id counts)
unfolding count_ids
count_ids-counts id [] counts h = omega arith
count_ids-counts id (o ∷ os) counts h = omega (
  arith,
  count_ids-counts id os (count_id o.operation_id counts) h,
  count_id-counts id o.operation_id counts h,
)

is_one-count : (o : Option ℕ) → is_one o ≡ nat_eq (or_zero o) 1
is_one-count none = refl
is_one-count (some n) = refl

-- An id is counted once exactly if one operation has it.
one_occurrence :
    (id : Text) (os : List OperationIdentityInput)
    → id ≢ []
    → is_one (get id (count_ids os [])) ≡ nat_eq (occurrences id os) 1
unfolding get
one_occurrence id os h =
    ground (arith, is_one-count (get id (count_ids os [])), count_ids-counts id os [] h)

-- The operation has an id that no other has.
abbrev pub HasOwnId : List OperationIdentityInput → OperationIdentityInput → Text → Type 0
HasOwnId os o id = (o.operation_id ≡ some id) × (id ≢ []) × (occurrences id os ≡ 1)

-- The key is the id if it is not empty and stands once, and else method and path.
abbrev pub IsKey : List OperationIdentityInput → OperationIdentityInput → Text → Type 0
IsKey os o k = HasOwnId os o k ⊎ (k ≡ fallback o) × ((id : Text) → ¬ HasOwnId os o id)

repeated :
    (id : Text) (os : List OperationIdentityInput)
    → is_one (get id (count_ids os [])) ≡ false
    → id ≢ []
    → occurrences id os ≢ 1
repeated id os more filled once = ground (arith, one_occurrence id os filled)

operation-IsKey-IsKey :
    (os : List OperationIdentityInput) (o : OperationIdentityInput)
    → IsKey os o (operation_key_of (count_ids os []) o)
unfolding operation_key_of fallback
operation-IsKey-IsKey os o = elim (Option-cases o.operation_id) [
  | inl missing ↦
      let k : operation_key_of (count_ids os []) o ≡ fallback o =
        rw (missing, operation_key_of) refl in
      inr (k, λ id (h, filled, once). ground arith)
  | inr (id, found) ↦ with_id id found
]
  where
    own : (id jd : Text) → o.operation_id ≡ some id → o.operation_id ≡ some jd → id ≡ jd
    own id jd h k = value_of (sym h ∙ k)

    with_id :
        (id : Text) → o.operation_id ≡ some id → IsKey os o (operation_key_of (count_ids os []) o)
    with_id [] found =
        let k : operation_key_of (count_ids os []) o ≡ fallback o =
          rw (found, operation_key_of) refl in
        inr (k, λ id (h, filled, once). filled (sym (own [] id found h)))
    with_id (c ∷ cs) found = elim (Bool-cases (is_one (get (c ∷ cs) (count_ids os [])))) [
      | inl one ↦
          let k : operation_key_of (count_ids os []) o ≡ c ∷ cs =
            rw (found, operation_key_of) (rw one refl) in
          let once = one_occurrence (c ∷ cs) os (λ e. ground arith) in
          inl (subst (HasOwnId os o) (sym k) (found, (λ e. ground arith), ground arith))
      | inr more ↦
          let k : operation_key_of (count_ids os []) o ≡ fallback o =
            rw (found, operation_key_of) (rw more refl) in
          inr (
            k,
            λ id (h, filled, once).
                repeated (c ∷ cs) os more (λ e. ground arith)
                  (ap (λ t. occurrences t os) (own (c ∷ cs) id found h) ∙ once),
          )
    ]

-- No key that the operations of `xs` have.
absent :
    (key : OperationIdentityInput → Text) (k : Text) (xs : List OperationIdentityInput)
    → All (λ y. key y ≢ k) xs
    → contains (map key xs) k ≡ false
unfolding contains
absent key k [] h = refl
absent key k (x ∷ xs) h = ground (arith, text_eq_iff (key x) k, h.0, absent key k xs h.1)

left_less :
    (id : Text) (y : OperationIdentityInput) (xs : List OperationIdentityInput)
    → occurrences id (y ∷ xs) ≡ 0
    → occurrences id xs ≡ 0
left_less id y xs h = ground arith

has_own :
    (id t : Text) (y : OperationIdentityInput)
    → y.operation_id ≡ some t
    → t ≡ id
    → has_id id y ≡ true
has_own id t y own e = rw own ((text_eq_iff t id).1 e)

with_occurrence :
    (id : Text) {t : Text} (y : OperationIdentityInput) (xs : List OperationIdentityInput)
    → y.operation_id ≡ some t
    → t ≡ id
    → occurrences id (y ∷ xs) ≢ 0
with_occurrence id {t} y xs own e h = ground (arith, has_own id t y own e)

module _ (all : List OperationIdentityInput) where
  abbrev key_in : OperationIdentityInput → Text
  key_in o = operation_key_of (count_ids all []) o

  abbrev fallbacks : List Text
  fallbacks = map fallback all

  -- The fallback of the operation is listed, and its id is no fallback.
  abbrev IsApart : OperationIdentityInput → Type 0
  IsApart o =
      (contains fallbacks (fallback o) ≡ true)
      × ((id : Text) → o.operation_id ≡ some id → contains fallbacks id ≡ false)

  differs_from_id :
      (id : Text) (xs : List OperationIdentityInput)
      → occurrences id xs ≡ 0
      → contains fallbacks id ≡ false
      → All IsApart xs
      → All (λ y. key_in y ≢ id) xs
  differs_from_id id [] none_left free a = tt
  differs_from_id id (y ∷ xs) none_left free a = (
    λ e. elim (operation-IsKey-IsKey all y) [
      | inl (own, filled, once) ↦ absurd (with_occurrence id y xs own e none_left)
      | inr (k, other) ↦ ground (arith, a.0.0, ap (contains fallbacks) (sym k ∙ e))
    ],
    differs_from_id id xs (omega (arith, none_left)) free a.1,
  )

  differs_from_fallback :
      (f : Text) (xs : List OperationIdentityInput)
      → contains fallbacks f ≡ true
      → contains (map fallback xs) f ≡ false
      → All IsApart xs
      → All (λ y. key_in y ≢ f) xs
  unfolding contains
  differs_from_fallback f [] there free a = tt
  differs_from_fallback f (y ∷ xs) there free a = (
    λ e. elim (operation-IsKey-IsKey all y) [
      | inl (own, filled, once) ↦ ground (arith, a.0.1 _ own, ap (contains fallbacks) e)
      | inr (k, other) ↦ ground (arith, text_eq_iff (fallback y) f, sym k ∙ e)
    ],
    differs_from_fallback f xs there (ground arith) a.1,
  )

  keys-IsNub :
      (xs : List OperationIdentityInput)
      → ((id : Text) → occurrences id xs ≤ occurrences id all)
      → IsNub (map fallback xs)
      → All IsApart xs
      → IsNub (map key_in xs)
  keys-IsNub [] few nub a = tt
  keys-IsNub (x ∷ xs) few nub a = (
    absent key_in (key_in x) xs (elim (operation-IsKey-IsKey all x) [
      | inl (own, filled, once) ↦
          differs_from_id (key_in x) xs (last_one (key_in x) x xs own (few (key_in x)) once)
            (a.0.1 (key_in x) own) a.1
      | inr (k, other) ↦
          subst (λ t. All (λ y. key_in y ≢ t) xs) (sym k)
            (differs_from_fallback (fallback x) xs a.0.0 nub.0 a.1)
    ]),
    keys-IsNub xs (λ id. fewer id x xs (few id)) nub.1 a.1,
  )
    where
      fewer :
          (id : Text) (x : OperationIdentityInput) (xs : List OperationIdentityInput)
          → occurrences id (x ∷ xs) ≤ occurrences id all
          → occurrences id xs ≤ occurrences id all
      fewer id x xs h = ground arith

      last_one :
          (id : Text) (x : OperationIdentityInput) (xs : List OperationIdentityInput)
          → x.operation_id ≡ some id
          → occurrences id (x ∷ xs) ≤ occurrences id all
          → occurrences id all ≡ 1
          → occurrences id xs ≡ 0
      last_one id x xs own few once = ground (arith, has_own id id x own refl)

-- The fallbacks of the operations are among those of all.
held :
    (os : List OperationIdentityInput) (ts : List Text)
    → ((t : Text) → contains (map fallback os) t ≡ true → contains ts t ≡ true)
    → All (λ o. contains ts (fallback o) ≡ true) os
unfolding contains
held [] ts sub = tt
held (o ∷ os) ts sub = (
  sub (fallback o) (ground (arith, text_eq_iff (fallback o) (fallback o))),
  held os ts (λ t m. sub t (ground arith)),
)

assigned_keys :
    (counts : List (Text × ℕ)) (target : Option Text) (os : List OperationIdentityInput)
    → map (λ i. i.operation_key) (assign_each counts target os).0 ≡ map (operation_key_of counts) os
unfolding assign_each
assigned_keys counts target [] = refl
assigned_keys counts target (o ∷ os) =
    λ i. operation_key_of counts o ∷ assigned_keys counts target os i

assigned-IsKey :
    (all : List OperationIdentityInput) (target : Option Text) (os : List OperationIdentityInput)
    → All (λ i. IsKey all i.input i.operation_key) (assign_each (count_ids all []) target os).0
unfolding assign_each
assigned-IsKey all target [] = tt
assigned-IsKey all target (o ∷ os) = (operation-IsKey-IsKey all o, assigned-IsKey all target os)

-- An operation is known by its id exactly if the id is not empty and no other operation has it, and
-- otherwise by its method and path.
pub assign-IsKey :
    (operations : List OperationIdentityInput) (target : Option Text)
    → All
        (λ i. IsKey operations i.input i.operation_key)
        (assign_operation_identities operations target).0
unfolding assign_operation_identities
assign-IsKey operations target = assigned-IsKey operations target operations

-- All keys differ, if no two operations share method and path and no id reads like the method and
-- path of an operation.
pub assign-IsNub :
    (operations : List OperationIdentityInput) (target : Option Text)
    → IsNub (map fallback operations)
    → All
        (λ o.
          (id : Text) → o.operation_id ≡ some id → contains (map fallback operations) id ≡ false)
        operations
    → IsNub (map (λ i. i.operation_key) (assign_operation_identities operations target).0)
unfolding assign_operation_identities contains
assign-IsNub operations target different apart =
    subst IsNub (sym (assigned_keys (count_ids operations []) target operations)) (
      keys-IsNub operations operations (λ id. omega arith) different
        (listed operations (held operations (map fallback operations) (λ t m. m)) apart))
  where
    listed :
        (os : List OperationIdentityInput)
        → All (λ o. contains (map fallback operations) (fallback o) ≡ true) os
        → All
            (λ o.
              (id : Text)
              → o.operation_id ≡ some id
              → contains (map fallback operations) id ≡ false)
            os
        → All (IsApart operations) os
    listed [] h k = tt
    listed (o ∷ os) h k = ((h.0, k.0), listed os h.1 k.1)
