-- ===== src/References/Closure/Cases.antt =====
-- The cases of `visit`.
use openapi_to.Common.{
  ℕ, suc, text_equality, Text, true, false, Option, contains, ◌≡◌, refl, Bool-cases, inl, inr,
  Result, ok, ◌>>=◌,
}
use openapi_to.Diagnostics.{error, info}
use openapi_to.References.{ReferenceGraph, edges_of}
use openapi_to.References.Closure.{
  Walk, WalkError, each, open_key, close_key, report, visit, visit_case, cycle, done, missing,
  enter,
}

module _ (graph : ReferenceGraph) (target : Option Text) (fuel : ℕ) (k : Text) (w : Walk) where
  pub data VisitView : Result WalkError Walk → Type 0 where
    on_path :
        (code message : Text)
        → contains w.active k ≡ true
        → VisitView (report code info message k w)
    seen : contains w.visited k ≡ true → VisitView (ok w)
    absent :
        (code message : Text)
        → contains graph.nodes k ≡ false
        → VisitView (report code error message k w)
    entered :
        contains w.active k ≡ false
        → contains graph.nodes k ≡ true
        → VisitView (
            each (visit graph target fuel) (edges_of graph k) (open_key k w) >>= λ u.
            ok (close_key k u))

  pub visit-view : VisitView (visit graph target (suc fuel) k w)
  unfolding visit visit_case
  visit-view = elim (Bool-cases (contains w.active k)) [
    | inl here ↦
        let c : visit_case graph target k w ≡ cycle = rw (here, visit_case) refl in
        rw (c, visit) (on_path _ _ here)
    | inr off ↦ elim (Bool-cases (contains w.visited k)) [
      | inl old ↦
          let c : visit_case graph target k w ≡ done = rw (off, visit_case) (rw old refl) in
          rw (c, visit) (seen old)
      | inr new ↦ elim (Bool-cases (contains graph.nodes k)) [
        | inr gone ↦
            let c : visit_case graph target k w ≡ missing =
              rw (off, visit_case) (rw new (rw gone refl)) in
            rw (c, visit) (absent _ _ gone)
        | inl there ↦
            let c : visit_case graph target k w ≡ enter =
              rw (off, visit_case) (rw new (rw there refl)) in
            rw (c, visit) (entered off there)
      ]
    ]
  ]
