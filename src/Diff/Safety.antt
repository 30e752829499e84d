-- ===== src/Diff/Safety.antt =====
-- Lists of changes of which none is breaking, and how the loops put them together.
use openapi_to.Common.{
  sym, text_eq_iff, subst, value_of, text_eq, ◌≡◌, refl, Bool, true, false, ◌||◌, Option, none,
  some, List, [], ◌∷◌, ◌++◌, Text, contains, text_equality, any, Bool-cases, arith, inl, inr,
}
use openapi_to.Common.Json.{Fields, keys}
use openapi_to.Common.Dictionary.{get}
use openapi_to.Diff.{Change, breaking, add}
use openapi_to.Diff.Values.{member, is_in}
use openapi_to.Diff.Schemas.{for_each, ◌then_add◌}
use openapi_to.Diff.Documents.{parameter_names}
use openapi_to.Diff.Summaries.{is_classified}
use openapi_to.Diff.Fuel.{property_of_keys}

-- No change in the list is breaking.
abbrev pub IsSafe : List Change → Type 0
IsSafe cs = any (is_classified breaking) cs ≡ false

abbrev pub IsSafeResult : Option (List Change) → Type 0
IsSafeResult o = (cs : List Change) × (o ≡ some cs) × IsSafe cs

pub any-append :
    (p : Change → Bool) (cs ds : List Change) → any p (cs ++ ds) ≡ (any p cs || any p ds)
unfolding any
any-append p [] ds = refl
any-append p (c ∷ cs) ds = ground (arith, any-append p cs ds)

pub then_add-IsSafe :
    (a b : Option (List Change)) → IsSafeResult (a then_add b) → IsSafeResult a × IsSafeResult b
then_add-IsSafe (some cs) (some ds) (es, e, h) =
    let both : any (is_classified breaking) (cs ++ ds) ≡ false = rw (value_of e) h in
    (
      (cs, refl, ground (arith, any-append (is_classified breaking) cs ds)),
      (ds, refl, ground (arith, any-append (is_classified breaking) cs ds)),
    )
then_add-IsSafe (some cs) none (es, e, h) = cc e
then_add-IsSafe none b (es, e, h) = cc e

pub last-IsSafe :
    (cs : List Change) (b : Option (List Change))
    → IsSafeResult (some cs then_add b)
    → IsSafeResult b
last-IsSafe cs b h = (then_add-IsSafe (some cs) b h).1

pub for_each-IsSafe :
    (ns : List Text) (body : Text → Option (List Change)) (n : Text)
    → contains ns n ≡ true
    → IsSafeResult (for_each ns body)
    → IsSafeResult (body n)
unfolding for_each contains
for_each-IsSafe [] body n m h = cc
for_each-IsSafe (k ∷ ns) body n m h =
    let parts = then_add-IsSafe (body k) (for_each ns body) h in
    elim (Bool-cases (text_eq k n)) [
      | inl same ↦ subst (λ t. IsSafeResult (body t)) ((text_eq_iff k n).0 same) parts.0
      | inr other ↦ for_each-IsSafe ns body n (ground arith) parts.1
    ]

pub removal_is_unsafe :
    (code message : Text) (path : List Text)
    → ¬ IsSafeResult (some (add breaking code message path))
unfolding any
removal_is_unsafe code message path (cs, e, h) =
    let unsafe : any (is_classified breaking) (add breaking code message path) ≡ false =
      subst (λ ds. any (is_classified breaking) ds ≡ false) (sym (value_of e)) h in
    cc unsafe

pub is_in_of_keys : (k : Text) (fs : Fields) → contains (keys fs) k ≡ true → is_in k fs ≡ true
unfolding is_in member
is_in_of_keys k fs m = let (v, e) = property_of_keys k fs m in rw (e, is_in, member) refl

pub contains_of_get :
    (k : Text) (m : List (Text × Fields)) (v : Fields)
    → get k m ≡ some v
    → contains (parameter_names m) k ≡ true
unfolding get parameter_names contains
contains_of_get k [] v h = cc
contains_of_get k ((j, w) ∷ m) v h = ground (arith, contains_of_get k m v)
