-- ===== src/OutputRoot/Protection.antt =====
-- What `protectedOutputPath` lets pass, read on the names of the path.
use openapi_to.Common.{
  ◌∙◌, ap, lower_unit, if◌then◌else◌, inl, inr, ◌>>=◌, Bool-cases, Result, arith, text_equality,
  starts_with, ok, contains, to_lower_case, any, ◌≡◌, refl, Bool, true, false, Option, List, [],
  ◌∷◌, ◌++◌, map, Text, text, text_eq,
}
use openapi_to.Diagnostics.{Diagnostic}
use openapi_to.OutputRoot.{
  control_error, state_root_error, is_control, is_protected, check_state, OutputBase, managed,
  workspace, state_directory_name, control_output_segments, throw_if, protected_segments,
}

-- The directory of the state root that an output is in is none that holds control state.
abbrev pub IsNoControl : List Text → Type 0
IsNoControl [] = Unit
IsNoControl (s ∷ ss) = contains control_output_segments (to_lower_case s) ≡ false

-- A managed output is in the state root and a workspace output is not.
abbrev pub IsPlaced : OutputBase → Text → List Text → Type 0
IsPlaced managed first rest = (first ≡ state_directory_name) × IsNoControl rest
IsPlaced workspace first rest = text_eq (to_lower_case first) state_directory_name ≡ false

-- No name of the path is a repository, its dependencies or the directory of a transaction.
abbrev pub IsUnprotected : List Text → Type 0
IsUnprotected names =
    (contains (map to_lower_case names) (text ".git") ≡ false)
    × (contains (map to_lower_case names) (text "node_modules") ≡ false)
    × (any (starts_with (text ".openapi-to-")) (map to_lower_case names) ≡ false)

contains_front :
    (names tail : List Text) (t : Text)
    → contains (map to_lower_case (names ++ tail)) t ≡ false
    → contains (map to_lower_case names) t ≡ false
unfolding contains
contains_front [] tail t h = refl
contains_front (n ∷ ns) tail t h = let e = contains_front ns tail t (ground arith) in ground arith

any_front :
    (p : Text → Bool) (names tail : List Text)
    → any p (map to_lower_case (names ++ tail)) ≡ false
    → any p (map to_lower_case names) ≡ false
unfolding any
any_front p [] tail h = refl
any_front p (n ∷ ns) tail h = let e = any_front p ns tail (ground arith) in ground arith

throw_if-eq-ok : (b : Bool) (d : Diagnostic) (u : Unit {0}) → throw_if b d ≡ ok u → b ≡ false
throw_if-eq-ok true d u h = cc h
throw_if-eq-ok false d u h = refl

pub throw_if-then :
    {A : Type 0} (b : Bool) (d : Diagnostic) (next : Unit {0} → Result Diagnostic A) (out : A)
    → (throw_if b d >>= next) ≡ ok out
    → (b ≡ false) × (next tt ≡ ok out)
throw_if-then true d next out h = cc h
throw_if-then false d next out h = (refl, h)

both_pass :
    (b c : Bool) (d e : Diagnostic) (u : Unit {0})
    → (throw_if b d >>= λ _. throw_if c e) ≡ ok u
    → (b ≡ false) × (c ≡ false)
both_pass true c d e u h = cc h
both_pass false c d e u h = (refl, throw_if-eq-ok c e u h)

refuses :
    (c : Bool) (d e : Diagnostic) (u : Unit {0})
    → ¬ ((throw_if true d >>= λ _. throw_if c e) ≡ ok u)
refuses c d e u h = cc h

then_branch :
    {A : Type 0} (b : Bool) (r s : Result Diagnostic A) (out : A)
    → b ≡ true
    → (if b then r else s) ≡ ok out
    → r ≡ ok out
then_branch true r s out e h = h
then_branch false r s out e h = cc e

state_directory_name-lower :
    text_eq (to_lower_case state_directory_name) state_directory_name ≡ true
unfolding text_eq to_lower_case text lower_unit
state_directory_name-lower = refl

check_state-IsPlaced :
    (path first : Text) (rest tail : List Text) (base : OutputBase) (target : Option Text)
    (u : Unit {0})
    → (base ≡ managed → first ≡ state_directory_name)
    → check_state path (map to_lower_case (first ∷ (rest ++ tail))) base target ≡ ok u
    → IsPlaced base first rest
unfolding check_state
check_state-IsPlaced path first rest tail workspace target u m h =
    elim (Bool-cases (text_eq (to_lower_case first) state_directory_name)) [
      | inr e ↦ e
      | inl e ↦ absurd (
          refuses (is_control (map to_lower_case (rest ++ tail))) (state_root_error target)
            (control_error path target) u (then_branch _ _ _ u e h))
    ]
check_state-IsPlaced path first [] tail managed target u m h = (m refl, tt)
check_state-IsPlaced path first (s ∷ ss) tail managed target u m h = (
  m refl,
  (both_pass false (is_control (map to_lower_case (s ∷ (ss ++ tail)))) (state_root_error target)
      (control_error path target) u
      (then_branch _ _ _ u
        (ap (λ f. text_eq (to_lower_case f) state_directory_name) (m refl)
          ∙ state_directory_name-lower)
        h)).1,
)

-- What a path that passes is, read on its names.
pub protected-IsUnprotected :
    (path : Text) (names tail : List Text) (base : OutputBase) (target : Option Text) (u : Unit {0})
    → protected_segments path (map to_lower_case (names ++ tail)) base target ≡ ok u
    → IsUnprotected names
unfolding protected_segments is_protected
protected-IsUnprotected path names tail base target u h =
    let clear =
      (throw_if-then _ _ (λ _. check_state path (map to_lower_case (names ++ tail)) base target) u
        h).0 in
    (
      contains_front names tail (text ".git") (ground arith),
      contains_front names tail (text "node_modules") (ground arith),
      any_front (starts_with (text ".openapi-to-")) names tail (ground arith),
    )

pub protected-IsPlaced :
    (path first : Text) (rest tail : List Text) (base : OutputBase) (target : Option Text)
    (u : Unit {0})
    → (base ≡ managed → first ≡ state_directory_name)
    → protected_segments path (map to_lower_case (first ∷ (rest ++ tail))) base target ≡ ok u
    → IsPlaced base first rest
unfolding protected_segments
protected-IsPlaced path first rest tail base target u m h =
    check_state-IsPlaced path first rest tail base target u m
      (throw_if-then _ _
        (λ _. check_state path (map to_lower_case (first ∷ (rest ++ tail))) base target) u h).1
