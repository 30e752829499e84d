-- ===== src/References/Closure/Fuel.antt =====
-- The calls of `visit` nest no deeper than the document has components.
use openapi_to.Common.{
  text_equality, ℕ, zero, suc, ◌+◌, ◌<◌, Text, true, Option, List, [], ◌∷◌, contains, length, ◌≡◌,
  ◌≢◌, refl, sym, arith, All, IsNub, length-IsNub-le, Option-cases, inl, inr, Result, ok, err,
  ◌>>=◌, subst,
}
use openapi_to.Diagnostics.{Severity, error, info}
use openapi_to.References.{ReferenceGraph, edges_of}
use openapi_to.References.Closure.{
  Walk, WalkError, out_of_fuel, each, open_key, close_key, report, reference_path, visit,
}
use openapi_to.References.Closure.Cases.{VisitView, on_path, seen, absent, entered, visit-view}
use openapi_to.References.Closure.Walks.{
  IsClosedUnder, Progress, open-IsClosedUnder, visit-Progress, Grows,
}

module _ (graph : ReferenceGraph) where
  -- The path to the current component, and the fuel for what is left.
  pub record Fits (fuel : ℕ) (w : Walk) : Type 0 where
    pub closed : IsClosedUnder graph w
    pub single : IsNub w.active
    pub known : All (λ k. contains graph.nodes k ≡ true) w.active
    pub enough : length graph.nodes < length w.active + fuel

  Fits-later :
      {fuel : ℕ} {w v : Walk} → Fits fuel w → Grows w v → IsClosedUnder graph v → Fits fuel v
  Fits-later {fuel} {w} {v} f g c = record {
    closed = c;
    single = subst IsNub (sym g.active) f.single;
    known = subst (All (λ k. contains graph.nodes k ≡ true)) (sym g.active) f.known;
    enough = subst (λ ks. length graph.nodes < length ks + fuel) (sym g.active) f.enough;
  }

  -- Not for want of fuel.
  abbrev pub Returns : Result WalkError Walk → Type 0
  Returns r = r ≢ err out_of_fuel

  pub each-Returns :
      (fuel : ℕ) (f : Text → Walk → Result WalkError Walk)
      → ((k : Text) (w : Walk) → Fits fuel w → Returns (f k w))
      → ((k : Text) (w v : Walk) → IsClosedUnder graph w → f k w ≡ ok v → Progress graph k w v)
      → (ks : List Text) (w : Walk) → Fits fuel w
      → Returns (each f ks w)
  unfolding each
  each-Returns fuel f step go [] w fits = ground arith
  each-Returns fuel f step go (k ∷ ks) w fits =
      rest (each-Returns fuel f step go ks) (f k w) (step k w fits) (λ v. go k w v fits.closed)
    where
      rest :
          ((u : Walk) → Fits fuel u → Returns (each f ks u))
          → (r : Result WalkError Walk) → Returns r
          → ((v : Walk) → r ≡ ok v → Progress graph k w v)
          → Returns (r >>= λ u. each f ks u)
      rest onward (ok u) t p = onward u (Fits-later fits (p u refl).grows (p u refl).closed)
      rest onward (err x) t p = t

  report-Returns :
      (code : Text) (severity : Severity) (message k : Text) (w : Walk)
      → Returns (report code severity message k w)
  unfolding report
  report-Returns code severity message k w = elim (Option-cases (reference_path k)) [
    | inl bad ↦ rw (bad, report) (ground arith)
    | inr (path, found) ↦ rw (found, report) (ground arith)
  ]

  visited-Returns :
      (target : Option Text) (fuel : ℕ) (k : Text) (w : Walk)
      → ((j : Text) (u : Walk) → Fits fuel u → Returns (visit graph target fuel j u))
      → Fits (suc fuel) w
      → (r : Result WalkError Walk) → VisitView graph target fuel k w r
      → Returns r
  unfolding open_key
  visited-Returns target fuel k w step fits r (on_path code message here) =
      report-Returns code info message k w
  visited-Returns target fuel k w step fits r (seen old) = ground arith
  visited-Returns target fuel k w step fits r (absent code message gone) =
      report-Returns code error message k w
  visited-Returns target fuel k w step fits r (entered off there) =
      closing (each (visit graph target fuel) (edges_of graph k) (open_key k w)) (
        each-Returns fuel (visit graph target fuel) step (visit-Progress graph target fuel)
          (edges_of graph k) (open_key k w)
          (record {
            closed = open-IsClosedUnder graph k w fits.closed;
            single = (off, fits.single);
            known = (there, fits.known);
            enough = omega (arith, fits.enough);
          }))
    where
      closing : (r : Result WalkError Walk) → Returns r → Returns (r >>= λ u. ok (close_key k u))
      closing (ok u) t = ground arith
      closing (err x) t = t

  pub visit-Returns :
      (target : Option Text) (fuel : ℕ) (k : Text) (w : Walk)
      → Fits fuel w
      → Returns (visit graph target fuel k w)
  visit-Returns target zero k w fits =
      absurd
        (omega (arith, fits.enough, length-IsNub-le w.active graph.nodes fits.single fits.known))
  visit-Returns target (suc fuel) k w fits =
      visited-Returns target fuel k w (visit-Returns target fuel) fits _
        (visit-view graph target fuel k w)
