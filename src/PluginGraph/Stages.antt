-- ===== src/PluginGraph/Stages.antt =====
-- Where plugins stand in the stages, and what a push changes.
use openapi_to.Common.{
  All-append, subst, ◌+◌, All-imp, ap, ◌↔◌, ℕ, zero, suc, ◌≤◌, ◌<◌, ◌≡◌, refl, true, false, ◌||◌,
  List, [], ◌∷◌, ◌++◌, Text, text_eq, text_eq_iff, text_equality, contains, contains-append, any,
  length, ok, if◌then◌else◌, arith, All, IsNub,
}
use openapi_to.PluginGraph.{Plugin, stage_after, push_stage}

abbrev pub plugin_names : List Plugin → List Text
plugin_names [] = []
plugin_names (p ∷ ps) = p.name ∷ plugin_names ps

-- The names of the plugins in the stages.
abbrev pub staged_names : List (List Plugin) → List Text
staged_names [] = []
staged_names (stage ∷ stages) = plugin_names stage ++ staged_names stages

-- `P i p` for every plugin `p` of the stage `i`, where the first stage has the given number.
abbrev pub AllStages : (ℕ → Plugin → Type 0) → ℕ → List (List Plugin) → Type 0
AllStages P i [] = Unit
AllStages P i (stage ∷ stages) = All (P i) stage × AllStages P (suc i) stages

any-name :
    (n : Text) (ps : List Plugin) → any (λ p. text_eq p.name n) ps ≡ contains (plugin_names ps) n
unfolding any contains
any-name n [] = refl
any-name n (p ∷ ps) = ground (arith, any-name n ps)

plugin_names-append :
    (ps qs : List Plugin) → plugin_names (ps ++ qs) ≡ plugin_names ps ++ plugin_names qs
plugin_names-append [] qs = refl
plugin_names-append (p ∷ ps) qs = ap (λ ns. p.name ∷ ns) (plugin_names-append ps qs)

-- A plugin is in a stage exactly when it is among the staged names.
pub stage_after-pos :
    (n : Text) (ss : List (List Plugin))
    → (0 < stage_after n ss) ↔ (contains (staged_names ss) n ≡ true)
unfolding stage_after contains
stage_after-pos n [] = ground arith
stage_after-pos n (s ∷ ss) = ground (
  arith,
  stage_after-pos n ss,
  any-name n s,
  contains-append (plugin_names s) (staged_names ss) n,
)

pub stage_after-le : (n : Text) (ss : List (List Plugin)) → stage_after n ss ≤ length ss
unfolding stage_after
stage_after-le n [] = omega arith
stage_after-le n (s ∷ ss) = ground (arith, stage_after-le n ss)

-- What `push_stage` gives where it leaves no hole.
unfoldable pub place : ℕ → Plugin → List (List Plugin) → List (List Plugin)
place i p [] = (p ∷ []) ∷ []
place zero p (s ∷ ss) = (s ++ p ∷ []) ∷ ss
place (suc i) p (s ∷ ss) = s ∷ place i p ss

pub push_stage-place :
    (i : ℕ) (p : Plugin) (ss : List (List Plugin))
    → i ≤ length ss
    → push_stage i p ss ≡ ok (place i p ss)
unfolding push_stage place
push_stage-place zero p [] h = refl
push_stage-place zero p (s ∷ ss) h = refl
push_stage-place (suc i) p [] h = absurd (omega arith)
push_stage-place (suc i) p (s ∷ ss) h = rw (push_stage-place i p ss (omega arith)) refl

module _ (p : Plugin) where
  contains-push :
      (s : List Plugin) (n : Text)
      → contains (plugin_names (s ++ p ∷ [])) n ≡ (text_eq p.name n || contains (plugin_names s) n)
  unfolding contains
  contains-push [] n = refl
  contains-push (q ∷ s) n = ground (arith, contains-push s n)

  pub contains-place :
      (i : ℕ) (ss : List (List Plugin)) (n : Text)
      → contains (staged_names (place i p ss)) n
        ≡ (text_eq p.name n || contains (staged_names ss) n)
  unfolding place contains
  contains-place i [] n = refl
  contains-place zero (s ∷ ss) n = ground (
    arith,
    contains-append (plugin_names (s ++ p ∷ [])) (staged_names ss) n,
    contains-append (plugin_names s) (staged_names ss) n,
    contains-push s n,
  )
  contains-place (suc i) (s ∷ ss) n = ground (
    arith,
    contains-append (plugin_names s) (staged_names (place i p ss)) n,
    contains-append (plugin_names s) (staged_names ss) n,
    contains-place i ss n,
  )

  pub stage_after-place :
      (i : ℕ) (ss : List (List Plugin)) (n : Text)
      → i ≤ length ss
      → contains (staged_names ss) p.name ≡ false
      → stage_after n (place i p ss) ≡ (if text_eq p.name n then suc i else stage_after n ss)
  unfolding place stage_after contains
  stage_after-place zero [] n h k = ground (arith, any-name n (p ∷ []))
  stage_after-place (suc i) [] n h k = absurd (omega arith)
  stage_after-place zero (s ∷ ss) n h k = ground (
    arith,
    any-name n (s ++ p ∷ []),
    any-name n s,
    contains-push s n,
    contains-append (plugin_names s) (staged_names ss) p.name,
    text_eq_iff p.name n,
  )
  stage_after-place (suc i) (s ∷ ss) n h k = ground (
    arith,
    any-name n s,
    contains-append (plugin_names s) (staged_names ss) p.name,
    text_eq_iff p.name n,
    stage_after-place i ss n,
  )

  pub AllStages-place :
      (P : ℕ → Plugin → Type 0) (k i : ℕ) (ss : List (List Plugin))
      → i ≤ length ss
      → AllStages P k ss
      → P (k + i) p
      → AllStages P k (place i p ss)
  unfolding place
  AllStages-place P k zero [] h a q = ((subst (λ j. P j p) (omega arith) q, tt), tt)
  AllStages-place P k (suc i) [] h a q = absurd (omega arith)
  AllStages-place P k zero (s ∷ ss) h a q =
      (All-append (P k) s (p ∷ []) a.0 (subst (λ j. P j p) (omega arith) q, tt), a.1)
  AllStages-place P k (suc i) (s ∷ ss) h a q =
      (a.0, AllStages-place P (suc k) i ss (omega arith) a.1 (subst (λ j. P j p) (omega arith) q))

pub AllStages-imp :
    (P Q : ℕ → Plugin → Type 0) (k : ℕ) (ss : List (List Plugin))
    → ((i : ℕ) (p : Plugin) → P i p → Q i p)
    → AllStages P k ss
    → AllStages Q k ss
AllStages-imp P Q k [] f h = tt
AllStages-imp P Q k (s ∷ ss) f h =
    (All-imp (P k) (Q k) s (f k) h.0, AllStages-imp P Q (suc k) ss f h.1)

IsNub-push :
    (p : Plugin) (s : List Plugin) (rest : List Text)
    → IsNub (plugin_names s ++ rest)
    → contains (plugin_names s ++ rest) p.name ≡ false
    → IsNub (plugin_names (s ++ p ∷ []) ++ rest)
unfolding contains
IsNub-push p [] rest h k = (k, h)
IsNub-push p (q ∷ s) rest h k = (
  ground (
    arith,
    contains-append (plugin_names (s ++ p ∷ [])) rest q.name,
    contains-append (plugin_names s) rest q.name,
    contains-push p s q.name,
    text_eq_iff p.name q.name,
    text_eq_iff q.name p.name,
  ),
  IsNub-push p s rest h.1 (ground arith),
)

IsNub-parts :
    (xs ys zs : List Text)
    → IsNub (xs ++ ys)
    → IsNub zs
    → ((a : Text) → contains xs a ≡ true → contains zs a ≡ false)
    → IsNub (xs ++ zs)
unfolding contains
IsNub-parts [] ys zs h k f = k
IsNub-parts (x ∷ xs) ys zs h k f = (
  ground (arith, contains-append xs ys x, contains-append xs zs x, f x, text_eq_iff x x),
  IsNub-parts xs ys zs h.1 k (λ a m. f a (ground arith)),
)

IsNub-suffix : (xs ys : List Text) → IsNub (xs ++ ys) → IsNub ys
IsNub-suffix [] ys h = h
IsNub-suffix (x ∷ xs) ys h = IsNub-suffix xs ys h.1

IsNub-apart :
    (xs ys : List Text) (a : Text) → IsNub (xs ++ ys) → contains xs a ≡ true → contains ys a ≡ false
unfolding contains
IsNub-apart [] ys a h m = cc
IsNub-apart (x ∷ xs) ys a h m =
    ground (arith, contains-append xs ys x, text_eq_iff x a, IsNub-apart xs ys a h.1)

-- A plugin that was in no stage is in one stage, and the others stay.
pub IsNub-place :
    (p : Plugin) (i : ℕ) (ss : List (List Plugin))
    → IsNub (staged_names ss)
    → contains (staged_names ss) p.name ≡ false
    → IsNub (staged_names (place i p ss))
unfolding place contains
IsNub-place p i [] h k = (refl, tt)
IsNub-place p zero (s ∷ ss) h k = IsNub-push p s (staged_names ss) h k
IsNub-place p (suc i) (s ∷ ss) h k =
    IsNub-parts (plugin_names s) (staged_names ss) (staged_names (place i p ss)) h
      (IsNub-place p i ss (IsNub-suffix (plugin_names s) (staged_names ss) h)
        (ground (arith, contains-append (plugin_names s) (staged_names ss) p.name)))
      (λ a m. ground (
        arith,
        contains-place p i ss a,
        IsNub-apart (plugin_names s) (staged_names ss) a h m,
        contains-append (plugin_names s) (staged_names ss) p.name,
        text_eq_iff p.name a,
      ))
