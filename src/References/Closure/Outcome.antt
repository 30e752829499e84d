-- ===== src/References/Closure/Outcome.antt =====
-- What `resolveOpenAPIComponentClosure` answers.
use openapi_to.Common.{
  suc, any, text_equality, Text, true, false, Option, List, [], contains, length, ◌≡◌, ◌↔◌, refl,
  sym, ap, ◌∙◌, arith, All, All-of_contains, of_All, Result, ok, err, ◌>>=◌, IsAscending,
  sorted_set, contains-sorted_set, sorted_set-IsAscending,
}
use openapi_to.Common.Json.{Json}
use openapi_to.Diagnostics.{Diagnostic, has_diagnostic_errors, sort_diagnostics}
use openapi_to.Diagnostics.Laws.{has_diagnostic_errors-sort_diagnostics}
use openapi_to.References.{ReferenceGraph, edges_of}
use openapi_to.References.Closure.{
  Walk, WalkError, malformed_uri, out_of_fuel, each, visit, walk_from, closure_roots,
  resolve_openapi_component_closure,
}
use openapi_to.References.Closure.Walks.{
  IsClosedUnder, covered, each-Progress, visit-Progress, Grows,
}
use openapi_to.References.Closure.Reachable.{
  IsNeeded, root, reference, Missing, Malformed, IsSound, Sound, each-Sound, visit-Sound,
}
use openapi_to.References.Closure.Fuel.{Returns, each-Returns, visit-Returns}

abbrev start : Walk
start = record { visited = []; active = []; diagnostics = [] }

module _ (graph : ReferenceGraph) (roots : List Text) where
  -- The references are the needed components of the document, each once and in ascending order. An
  -- error is reported exactly when a needed component is not in the document.
  pub record IsClosure (references : List Text) (diagnostics : List Diagnostic) : Type 0 where
    pub ascending : IsAscending references
    pub members :
        (k : Text)
        → (contains references k ≡ true)
          ↔ (IsNeeded graph roots k × (contains graph.nodes k ≡ true))
    pub reports : (has_diagnostic_errors diagnostics ≡ true) ↔ Missing graph roots

  -- The only exception is that of `decodeURIComponent`, for a needed key.
  abbrev pub ClosureOutcome : Result WalkError (List Text × List Diagnostic) → Type 0
  ClosureOutcome (ok (references, diagnostics)) = IsClosure references diagnostics
  ClosureOutcome (err malformed_uri) = Malformed graph roots
  ClosureOutcome (err out_of_fuel) = ⊥

  start-closed : IsClosedUnder graph start
  unfolding contains
  start-closed = record { closed = λ k h. ground arith }

  needed-covered :
      (w : Walk)
      → IsClosedUnder graph w
      → w.active ≡ []
      → All (λ k. covered graph w k ≡ true) roots
      → {k : Text} → IsNeeded graph roots k
      → covered graph w k ≡ true
  unfolding contains
  needed-covered w c idle all (root m) = of_All (λ k. covered graph w k ≡ true) roots _ all m
  needed-covered w c idle all (reference k need there m) =
      let before = needed-covered w c idle all need in
      let none_active : contains w.active k ≡ false = ap (λ ks. contains ks k) idle in
      of_All (λ d. covered graph w d ≡ true) (edges_of graph k) _ (c.closed k (ground arith)) m

  visited_of :
      (w : Walk) (k : Text)
      → covered graph w k ≡ true
      → contains w.active k ≡ false
      → contains graph.nodes k ≡ true
      → contains w.visited k ≡ true
  visited_of w k h idle there = ground arith

  missing_of :
      (w : Walk) (k : Text)
      → covered graph w k ≡ true
      → contains w.active k ≡ false
      → contains graph.nodes k ≡ false
      → (contains w.visited k ≡ true → contains graph.nodes k ≡ true)
      → has_diagnostic_errors w.diagnostics ≡ true
  missing_of w k h idle gone sound = ground arith

  outcome_of :
      (w : Walk)
      → Grows start w
      → IsClosedUnder graph w
      → All (λ k. covered graph w k ≡ true) roots
      → IsSound graph roots w
      → IsClosure (sorted_set w.visited) (sort_diagnostics w.diagnostics)
  unfolding contains
  outcome_of w g c all s = record {
    ascending = sorted_set-IsAscending w.visited;
    members = λ k. (
      λ m. s.needed k (sym (contains-sorted_set w.visited k) ∙ m),
      λ (need, there).
          contains-sorted_set w.visited k
          ∙ visited_of w k (needed-covered w c g.active all need)
              (ap (λ ks. contains ks k) g.active) there,
    );
    reports = (
      λ m. s.missing (sym (has_diagnostic_errors-sort_diagnostics w.diagnostics) ∙ m),
      λ (k, need, gone).
          has_diagnostic_errors-sort_diagnostics w.diagnostics
          ∙ missing_of w k (needed-covered w c g.active all need)
              (ap (λ ks. contains ks k) g.active) gone (λ m. (s.needed k m).1),
    );
  }

  closing :
      (r : Result WalkError Walk)
      → Sound graph roots r
      → Returns graph r
      → ((v : Walk)
          → r ≡ ok v
          → Grows start v × IsClosedUnder graph v × All (λ k. covered graph v k ≡ true) roots)
      → ClosureOutcome (r >>= λ w. ok (sorted_set w.visited, sort_diagnostics w.diagnostics))
  closing (ok w) s t p = let (g, c, all) = p w refl in outcome_of w g c all s
  closing (err malformed_uri) s t p = s
  closing (err out_of_fuel) s t p = t refl

-- The closure of the roots, or the exception of `decodeURIComponent` where a needed key is reported
-- that is no valid URI reference. The calls nest no deeper than the fuel.
pub resolve-ClosureOutcome :
    (graph : ReferenceGraph) (target : Option Text) (root_values : List Json)
    (security_scheme_names : List Text)
    → ClosureOutcome graph
        (closure_roots root_values security_scheme_names)
        (resolve_openapi_component_closure graph target root_values security_scheme_names)
unfolding resolve_openapi_component_closure walk_from contains has_diagnostic_errors any
resolve-ClosureOutcome graph target root_values security_scheme_names =
    let roots = closure_roots root_values security_scheme_names in
    let fuel = suc (length graph.nodes) in
    closing graph roots (each (visit graph target fuel) roots start)
      (each-Sound graph roots (visit graph target fuel) (visit-Sound graph roots target fuel) roots
        start (All-of_contains (IsNeeded graph roots) roots (λ k m. root m))
        (record { needed = λ k m. ground arith; missing = λ m. ground arith }))
      (each-Returns graph fuel (visit graph target fuel) (visit-Returns graph target fuel)
        (visit-Progress graph target fuel) roots start
        (record {
          closed = start-closed graph roots;
          single = tt;
          known = tt;
          enough = omega arith;
        }))
      (λ v h.
        each-Progress graph (visit graph target fuel) (visit-Progress graph target fuel) roots start
          v (start-closed graph roots) h)
