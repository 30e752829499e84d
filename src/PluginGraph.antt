-- ===== src/PluginGraph.antt =====
-- packages/core/src/pluginManager/graph.ts: `sortPluginsByStages`, which puts the plugins into stages by
-- a depth-first walk over their dependencies.
pub mod Stages
pub mod Walk
pub mod Outcome
pub mod Visits
pub mod Sorting
pub mod Tests
use openapi_to.Common.{
  ℕ, zero, suc, max, Bool, true, false, Option, none, some, List, [], ◌∷◌, ◌++◌, Text, text_eq,
  text_equality, contains, remove, any, length, Result, ok, err, ◌>>=◌, if◌then◌else◌,
}
use openapi_to.Common.Dictionary.{get, put}

-- What the function reads of a plugin; `none` is a plugin without `dependencies`.
pub record Plugin : Type 0 where
  pub name : Text
  pub dependencies : Option (List Text)

-- The thrown errors with the name in their message; `sparse` is the exception of `findStage` on a
-- hole in `stages`; and the end of the fuel.
pub data StageError : Type 0 where
  cyclic not_found : Text → StageError
  sparse out_of_fuel : StageError

-- The local variables of the function.
pub record StageState : Type 0 where
  pub visited : List Text
  pub visiting : List Text
  pub stages : List (List Plugin)

-- `new Map(plugins.map((p) => [p.name, p]))`
unfoldable pub add_by_name : List Plugin → List (Text × Plugin) → List (Text × Plugin)
add_by_name [] m = m
add_by_name (p ∷ ps) m = add_by_name ps (put p.name p m)

unfoldable pub by_name : List Plugin → List (Text × Plugin)
unfolding add_by_name
by_name plugins = add_by_name plugins []

-- `plugin.dependencies?.reduce`: no dependencies are an empty list.
abbrev pub dependencies_of : Plugin → List Text
dependencies_of p = elim p.dependencies [ none ↦ [] | some ds ↦ ds ]

-- `findStage(name) + 1`, which is 0 for a name in no stage.
unfoldable pub stage_after : Text → List (List Plugin) → ℕ
stage_after name [] = 0
stage_after name (stage ∷ stages) =
    if any (λ p. text_eq p.name name) stage
    then 1
    else elim (stage_after name stages) [ zero ↦ 0 | suc n ↦ suc (suc n) ]

-- `if (!stages[i]) stages[i] = []; stages[i].push(plugin)`
unfoldable pub push_stage : ℕ → Plugin → List (List Plugin) → Result StageError (List (List Plugin))
push_stage zero p [] = ok ((p ∷ []) ∷ [])
push_stage zero p (stage ∷ stages) = ok ((stage ++ p ∷ []) ∷ stages)
push_stage (suc i) p [] = err sparse
push_stage (suc i) p (stage ∷ stages) = push_stage i p stages >>= λ rest. ok (stage ∷ rest)

-- The `reduce` over the dependencies, with `max + 1` for `max`.
unfoldable pub visit_dependencies :
    (Text → StageState → Result StageError StageState)
    → List Text
    → ℕ
    → StageState
    → Result StageError (ℕ × StageState)
visit_dependencies visit [] stage s = ok (stage, s)
visit_dependencies visit (d ∷ ds) stage s =
    visit d s >>= λ s'. visit_dependencies visit ds (max stage (stage_after d s'.stages)) s'

unfoldable pub open_name : Text → StageState → StageState
open_name name s = record s { visiting = name ∷ s.visiting }

unfoldable pub close_name : Text → List (List Plugin) → StageState → StageState
close_name name stages s = record {
  visited = name ∷ s.visited;
  visiting = remove name s.visiting;
  stages = stages;
}

module _ (plugins : List (Text × Plugin)) where
  unfoldable pub visit : ℕ → Text → StageState → Result StageError StageState
  visit zero name s = err out_of_fuel
  visit (suc fuel) name s = elim (contains s.visited name) [
    | true ↦ ok s
    | false ↦ elim (contains s.visiting name) [
      | true ↦ err (cyclic name)
      | false ↦ elim (get name plugins) [
        | none ↦ err (not_found name)
        | some plugin ↦
            visit_dependencies (visit fuel) (dependencies_of plugin) 0 (open_name name s) >>= λ r.
            push_stage r.0 plugin r.1.stages >>= λ stages. ok (close_name name stages r.1)
      ]
    ]
  ]

  -- `for (const plugin of plugins) visit(plugin.name, 0)`
  unfoldable pub visit_each : ℕ → List Plugin → StageState → Result StageError StageState
  unfolding visit
  visit_each fuel [] s = ok s
  visit_each fuel (p ∷ ps) s = visit fuel p.name s >>= λ s'. visit_each fuel ps s'

unfoldable pub sort_plugins_by_stages : List Plugin → Result StageError (List (List Plugin))
unfolding visit_each by_name
sort_plugins_by_stages plugins =
    visit_each (by_name plugins) (suc (length (by_name plugins))) plugins
      (record { visited = []; visiting = []; stages = [] })
    >>= λ s. ok s.stages
