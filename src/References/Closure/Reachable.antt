-- ===== src/References/Closure/Reachable.antt =====
-- The components that the roots need, and that the walk visits no other.
use openapi_to.Common.{
  ◌∙◌, ◌⊎◌, text_equality, ℕ, zero, suc, Text, true, false, Option, none, List, [], ◌∷◌, contains,
  ◌≡◌, refl, sym, arith, inl, inr, All, All-of_contains, Bool-cases, Option-cases, Result, ok, err,
  ◌>>=◌, text_eq, text_eq_iff, subst,
}
use openapi_to.Diagnostics.{Severity, error, info, at_path, has_diagnostic_errors}
use openapi_to.Diagnostics.Laws.{has_diagnostic_errors-push_info}
use openapi_to.References.{ReferenceGraph, edges_of}
use openapi_to.References.Closure.{
  Walk, WalkError, malformed_uri, out_of_fuel, each, open_key, close_key, report, reference_path,
  visit,
}
use openapi_to.References.Closure.Cases.{VisitView, on_path, seen, absent, entered, visit-view}

module _ (graph : ReferenceGraph) (roots : List Text) where
  -- A key is needed if it is a root, or a component that is needed refers to it.
  pub data IsNeeded : Text → Type 0 where
    root : {k : Text} → contains roots k ≡ true → IsNeeded k
    reference :
        (k : Text) {d : Text}
        → IsNeeded k
        → contains graph.nodes k ≡ true
        → contains (edges_of graph k) d ≡ true
        → IsNeeded d

  -- Some needed component is not in the document.
  abbrev pub Missing : Type 0
  Missing = (k : Text) × IsNeeded k × (contains graph.nodes k ≡ false)

  -- A needed key is no valid URI reference.
  abbrev pub Malformed : Type 0
  Malformed = (k : Text) × IsNeeded k × (reference_path k ≡ none)

  -- Only what is needed was visited, and only what is missing was reported as an error.
  pub record IsSound (w : Walk) : Type 0 where
    pub needed :
        (k : Text) → contains w.visited k ≡ true → IsNeeded k × (contains graph.nodes k ≡ true)
    pub missing : has_diagnostic_errors w.diagnostics ≡ true → Missing

  -- What a walk from a sound state gives.
  abbrev pub Sound : Result WalkError Walk → Type 0
  Sound (ok v) = IsSound v
  Sound (err malformed_uri) = Malformed
  Sound (err out_of_fuel) = Unit

  report-Sound :
      (code : Text) (severity : Severity) (message k : Text) (w : Walk)
      → IsNeeded k
      → IsSound w
      → (severity ≡ info) ⊎ (contains graph.nodes k ≡ false)
      → Sound (report code severity message k w)
  unfolding report
  report-Sound code severity message k w need s why = elim (Option-cases (reference_path k)) [
    | inl bad ↦ rw (bad, report) (k, need, bad)
    | inr (path, found) ↦
        rw (found, report)
          (record {
            needed = s.needed;
            missing = λ h. elim why [
              | inr gone ↦ (k, need, gone)
              | inl mild ↦ s.missing (
                  sym (
                    has_diagnostic_errors-push_info w.diagnostics
                      (at_path code severity message path) mild)
                  ∙ h)
            ];
          })
  ]

  pub each-Sound :
      (f : Text → Walk → Result WalkError Walk)
      → ((k : Text) (w : Walk) → IsNeeded k → IsSound w → Sound (f k w))
      → (ks : List Text) (w : Walk) → All IsNeeded ks
      → IsSound w
      → Sound (each f ks w)
  unfolding each
  each-Sound f step [] w need s = s
  each-Sound f step (k ∷ ks) w need s =
      rest (λ u. each-Sound f step ks u need.1) (f k w) (step k w need.0 s)
    where
      rest :
          ((u : Walk) → IsSound u → Sound (each f ks u))
          → (r : Result WalkError Walk) → Sound r
          → Sound (r >>= λ u. each f ks u)
      rest onward (ok u) t = onward u t
      rest onward (err malformed_uri) t = t
      rest onward (err out_of_fuel) t = t

  visited-Sound :
      (target : Option Text) (fuel : ℕ) (k : Text) (w : Walk)
      → ((j : Text) (u : Walk) → IsNeeded j → IsSound u → Sound (visit graph target fuel j u))
      → IsNeeded k
      → IsSound w
      → (r : Result WalkError Walk) → VisitView graph target fuel k w r
      → Sound r
  unfolding open_key close_key contains
  visited-Sound target fuel k w step need s r (on_path code message here) =
      report-Sound code info message k w need s (inl refl)
  visited-Sound target fuel k w step need s r (seen old) = s
  visited-Sound target fuel k w step need s r (absent code message gone) =
      report-Sound code error message k w need s (inr gone)
  visited-Sound target fuel k w step need s r (entered off there) =
      closing (each (visit graph target fuel) (edges_of graph k) (open_key k w)) (
        each-Sound (visit graph target fuel) step (edges_of graph k) (open_key k w)
          (All-of_contains IsNeeded (edges_of graph k) (λ d m. reference k need there m))
          (record { needed = s.needed; missing = s.missing }))
    where
      closing : (r : Result WalkError Walk) → Sound r → Sound (r >>= λ u. ok (close_key k u))
      closing (ok u) t = record {
        needed = λ j m. elim (Bool-cases (text_eq k j)) [
          | inl same ↦
              subst (λ i. IsNeeded i × (contains graph.nodes i ≡ true)) ((text_eq_iff k j).0 same)
                (need, there)
          | inr other ↦ t.needed j (ground arith)
        ];
        missing = t.missing;
      }
      closing (err malformed_uri) t = t
      closing (err out_of_fuel) t = t

  pub visit-Sound :
      (target : Option Text) (fuel : ℕ) (k : Text) (w : Walk)
      → IsNeeded k
      → IsSound w
      → Sound (visit graph target fuel k w)
  unfolding visit
  visit-Sound target zero k w need s = tt
  visit-Sound target (suc fuel) k w need s =
      visited-Sound target fuel k w (visit-Sound target fuel) need s _
        (visit-view graph target fuel k w)
