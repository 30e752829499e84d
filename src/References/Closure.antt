-- ===== src/References/Closure.antt =====
-- packages/core/src/openapi/projection/reference-graph.ts: `resolveOpenAPIComponentClosure`, the
-- depth-first walk over the components that a set of roots needs. A nesting of calls that is deeper
-- than the fuel is an error of its own; the abort signal is not modelled.
pub mod Cases
pub mod Walks
pub mod Reachable
pub mod Fuel
pub mod Outcome
use openapi_to.Common.{
  split_all, text_equality, ℕ, zero, suc, Text, text, Bool, true, false, Option, none, some, List,
  [], ◌∷◌, ◌++◌, contains, map, nat_eq, sorted_set, length, Result, ok, err, ◌>>=◌, remove,
}
use openapi_to.Common.Json.{Json}
use openapi_to.Diagnostics.{Diagnostic, Severity, info, error, at_path, sort_diagnostics}
use openapi_to.References.{
  ReferenceGraph, edges_of, decode_pointer_token, component_reference_key, security_schemes,
  collect_openapi_component_references,
}

pub data WalkError : Type 0 where
  malformed_uri out_of_fuel : WalkError

pub record Walk : Type 0 where
  pub visited : List Text
  pub active : List Text
  pub diagnostics : List Diagnostic

-- `tokens.map(decodePointerToken)`
unfoldable pub decode_tokens : List Text → Option (List Text)
decode_tokens [] = some []
decode_tokens (t ∷ ts) = elim (decode_pointer_token t) [
  | none ↦ none
  | some u ↦ elim (decode_tokens ts) [ none ↦ none | some us ↦ some (u ∷ us) ]
]

drop_two : Text → Text
drop_two (c ∷ d ∷ ts) = ts
drop_two _ = []

-- `key.slice(2).split('/').map(decodePointerToken)`
unfoldable pub reference_path : Text → Option (List Text)
unfolding drop_two
reference_path key = decode_tokens (split_all (drop_two key))

-- `options.target ? prefix + options.target : ''`
abbrev pub suffix : Text → Option Text → Text
suffix prefix none = []
suffix prefix (some []) = []
suffix prefix (some (c ∷ cs)) = prefix ++ c ∷ cs

pub data VisitCase : Type 0 where
  cycle done missing enter : VisitCase

-- The loop `for (const key of keys) visit(key)`.
unfoldable pub each :
    (Text → Walk → Result WalkError Walk) → List Text → Walk → Result WalkError Walk
each visit [] w = ok w
each visit (k ∷ ks) w = visit k w >>= λ w'. each visit ks w'

unfoldable pub open_key : Text → Walk → Walk
open_key key w = record w { active = key ∷ w.active }

unfoldable pub close_key : Text → Walk → Walk
close_key key w = record w { active = remove key w.active; visited = key ∷ w.visited }

unfoldable pub report : Text → Severity → Text → Text → Walk → Result WalkError Walk
report code severity message key w = elim (reference_path key) [
  | none ↦ err malformed_uri
  | some path ↦
      ok (record w { diagnostics = w.diagnostics ++ at_path code severity message path ∷ [] })
]

-- `[...roots].sort()`
unfoldable pub closure_roots : List Json → List Text → List Text
closure_roots root_values security_scheme_names = sorted_set (
    collect_all root_values ++ map (component_reference_key security_schemes) security_scheme_names)
  where
    collect_all : List Json → List Text
    collect_all [] = []
    collect_all (v ∷ vs) = collect_openapi_component_references v ++ collect_all vs

module _ (graph : ReferenceGraph) (target : Option Text) where
  -- The tests of `visit`, in order.
  unfoldable pub visit_case : Text → Walk → VisitCase
  visit_case key w = elim (contains w.active key) [
    | true ↦ cycle
    | false ↦ elim (contains w.visited key) [
      | true ↦ done
      | false ↦ elim (contains graph.nodes key) [ true ↦ enter | false ↦ missing ]
    ]
  ]

  unfoldable pub visit : ℕ → Text → Walk → Result WalkError Walk
  visit zero key w = err out_of_fuel
  visit (suc fuel) key w = elim (visit_case key w) [
    | cycle ↦
        report (text "PROJECTION_REFERENCE_CYCLE") info
          (text "Projection preserved the component reference cycle at "
            ++ (key ++ (suffix (text " for target ") target ++ text ".")))
          key w
    | done ↦ ok w
    | missing ↦
        report (text "PROJECTION_REFERENCE_NOT_FOUND") error
          (text "Required projection component was not found: "
            ++ (key ++ (suffix (text " in target ") target ++ text ".")))
          key w
    | enter ↦
        each (visit fuel) (edges_of graph key) (open_key key w) >>= λ w'. ok (close_key key w')
  ]

  -- The walk from the roots.
  unfoldable pub walk_from : List Text → Result WalkError Walk
  walk_from roots =
      each (visit (suc (length graph.nodes))) roots
        (record { visited = []; active = []; diagnostics = [] })

  unfoldable pub resolve_openapi_component_closure :
      List Json → List Text → Result WalkError (List Text × List Diagnostic)
  resolve_openapi_component_closure root_values security_scheme_names =
      walk_from (closure_roots root_values security_scheme_names) >>= λ w.
      ok (sorted_set w.visited, sort_diagnostics w.diagnostics)
