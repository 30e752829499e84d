-- ===== src/PluginGraph/Tests.antt =====
-- The stages of a few plugins, and the errors.
use openapi_to.Common.{
  ◌≡◌, refl, none, some, List, [], ◌∷◌, Text, text, text_eq, text_equality, nat_equality, contains,
  remove, filter, any, ok, err,
}
use openapi_to.Common.Dictionary.{get, put}
use openapi_to.PluginGraph.{
  Plugin, cyclic, not_found, sort_plugins_by_stages, stage_after, push_stage, visit_dependencies,
  open_name, close_name, by_name,
}
use openapi_to.PluginGraph.Sorting.{StagingOutcome, sort_plugins-StagingOutcome}

abbrev plugin : Text → List Text → Plugin
plugin name ds = record { name = name; dependencies = some ds }

abbrev types : Plugin
types = record { name = text "types"; dependencies = none }

abbrev zod : Plugin
zod = plugin (text "zod") (text "types" ∷ [])

abbrev request : Plugin
request = plugin (text "request") (text "zod" ∷ text "types" ∷ [])

run : Unit {0}
unfolding sort_plugins_by_stages stage_after push_stage visit_dependencies open_name close_name
    by_name get put contains remove filter any text text_eq
run = tt

three_stages :
    sort_plugins_by_stages (request ∷ types ∷ zod ∷ [])
    ≡ ok ((types ∷ []) ∷ (zod ∷ []) ∷ (request ∷ []) ∷ [])
unfolding run
three_stages = refl

missing_plugin : sort_plugins_by_stages (zod ∷ []) ≡ err (not_found (text "types"))
unfolding run
missing_plugin = refl

cycle_found :
    sort_plugins_by_stages (zod ∷ plugin (text "types") (text "zod" ∷ []) ∷ [])
    ≡ err (cyclic (text "zod"))
unfolding run
cycle_found = refl

sort_plugins-StagingOutcome_example :
    StagingOutcome
      (request ∷ types ∷ zod ∷ [])
      (sort_plugins_by_stages (request ∷ types ∷ zod ∷ []))
sort_plugins-StagingOutcome_example = sort_plugins-StagingOutcome (request ∷ types ∷ zod ∷ [])
