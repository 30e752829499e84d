-- ===== src/PluginGraph/Walk.antt =====
-- What every visit keeps, and what it gives: the invariant of the walk.
use openapi_to.Common.{
  ℕ, ◌≡◌, true, false, none, some, List, [], ◌∷◌, Text, text_equality, contains, Result, ok, err,
  All, IsNub, max,
}
use openapi_to.Common.Dictionary.{get}
use openapi_to.PluginGraph.{
  Plugin, StageError, cyclic, not_found, sparse, out_of_fuel, StageState, dependencies_of,
  stage_after,
}
use openapi_to.PluginGraph.Stages.{staged_names, AllStages}

-- The number of the first stage after all of the given names.
abbrev pub after_all : List Text → ℕ → List (List Plugin) → ℕ
after_all [] stage stages = stage
after_all (d ∷ ds) stage stages = after_all ds (max stage (stage_after d stages)) stages

-- Every dependency stands in a stage, and the plugin in the first stage after all of them.
abbrev pub IsLayered : List (List Plugin) → ℕ → Plugin → Type 0
IsLayered stages i p =
    All (λ d. contains (staged_names stages) d ≡ true) (dependencies_of p)
    × (after_all (dependencies_of p) 0 stages ≡ i)

-- The later stages keep what the earlier have where it is.
pub record Extends (s t : List (List Plugin)) : Type 0 where
  pub kept : (n : Text) → contains (staged_names s) n ≡ true → contains (staged_names t) n ≡ true
  pub in_place : (n : Text) → contains (staged_names s) n ≡ true → stage_after n t ≡ stage_after n s

module _ (plugins : List (Text × Plugin)) where
  -- The plugin of one name depends on another.
  abbrev pub DependsOn : Text → Text → Type 0
  DependsOn a b = (p : Plugin) × (get a plugins ≡ some p) × (contains (dependencies_of p) b ≡ true)

  -- A chain of dependencies.
  pub data Reaches : Text → Text → Type 0 where
    one : {a b : Text} → DependsOn a b → Reaches a b
    more : {a b c : Text} → DependsOn a b → Reaches b c → Reaches a c

  pub Reaches-snoc : {a b c : Text} → Reaches a b → DependsOn b c → Reaches a c
  Reaches-snoc (one d) e = more d (one e)
  Reaches-snoc (more d r) e = more d (Reaches-snoc r e)

  -- Who visits a name: the loop over the plugins, or the visit of a plugin that depends on it.
  abbrev pub IsCalled : Text → List Text → Type 0
  IsCalled name [] = (p : Plugin) × (get name plugins ≡ some p)
  IsCalled name (v ∷ vs) = DependsOn v name

  abbrev pub IsChain : List Text → Type 0
  IsChain [] = Unit
  IsChain (v ∷ vs) = ((p : Plugin) × (get v plugins ≡ some p)) × IsCalled v vs × IsChain vs

  pub record IsStaging (stages : List (List Plugin)) : Type 0 where
    pub once : IsNub (staged_names stages)
    pub known : AllStages (λ i p. get p.name plugins ≡ some p) 0 stages
    pub layered : AllStages (IsLayered stages) 0 stages

  pub record IsWalk (s : StageState) : Type 0 where
    pub staging : IsStaging s.stages
    pub staged : (n : Text) → contains s.visited n ≡ contains (staged_names s.stages) n
    pub apart : (n : Text) → contains s.visiting n ≡ true → contains s.visited n ≡ false
    pub distinct : IsNub s.visiting
    pub chain : IsChain s.visiting

  -- What an error says of the plugins.
  abbrev pub Explains : StageError → Type 0
  Explains (cyclic n) = Reaches n n
  Explains (not_found n) = (get n plugins ≡ none) × ((a : Text) × DependsOn a n)
  Explains sparse = ⊥
  Explains out_of_fuel = ⊥

  pub record Visited (name : Text) (s t : StageState) : Type 0 where
    pub walk : IsWalk t
    pub extends : Extends s.stages t.stages
    pub found : contains t.visited name ≡ true
    pub same_visiting : t.visiting ≡ s.visiting

  abbrev pub VisitOutcome : Text → StageState → Result StageError StageState → Type 0
  VisitOutcome name s (ok t) = Visited name s t
  VisitOutcome name s (err e) = Explains e
