-- ===== src/References/Closure/Walks.antt =====
-- What the walk over the reference graph keeps: everything that a visited component refers to is
-- visited, is being visited, or is reported as missing.
use openapi_to.Common.{
  subst, remove-cons_absent, ◌⊎◌, text_equality, ℕ, zero, suc, Text, Bool, true, false, not, ◌&&◌,
  ◌||◌, Option, List, [], ◌∷◌, ◌++◌, contains, ◌≡◌, refl, sym, ◌∙◌, ap, arith, inl, inr, All,
  All-imp, Bool-cases, Option-cases, Result, ok, err, >>=-eq-ok, contains-remove, text_eq_iff,
  text_eq, remove,
}
use openapi_to.Diagnostics.{Diagnostic, Severity, error, info, at_path, has_diagnostic_errors}
use openapi_to.Diagnostics.Laws.{has_diagnostic_errors-append, has_diagnostic_errors-push}
use openapi_to.References.{ReferenceGraph, edges_of}
use openapi_to.References.Closure.Cases.{VisitView, on_path, seen, absent, entered, visit-view}
use openapi_to.References.Closure.{
  Walk, WalkError, malformed_uri, each, open_key, close_key, report, reference_path, visit,
}

pub ok_value : {A : Type 0} {x y : A} → (let r : Result WalkError A = ok x in r) ≡ ok y → x ≡ y
ok_value h = cc

-- A later state of the walk, at the same depth.
pub record Grows (w v : Walk) : Type 0 where
  pub active : v.active ≡ w.active
  pub visited : (k : Text) → contains w.visited k ≡ true → contains v.visited k ≡ true
  pub errors :
      has_diagnostic_errors w.diagnostics ≡ true → has_diagnostic_errors v.diagnostics ≡ true

pub Grows-refl : (w : Walk) → Grows w w
Grows-refl w = record { active = refl; visited = λ k h. h; errors = λ h. h }

pub Grows-trans : (u w v : Walk) → Grows u w → Grows w v → Grows u v
Grows-trans u w v g h = record {
  active = h.active ∙ g.active;
  visited = λ k m. h.visited k (g.visited k m);
  errors = λ m. h.errors (g.errors m);
}

-- What `report` answers.
pub report-ok :
    (code : Text) (severity : Severity) (message key : Text) (w v : Walk)
    → report code severity message key w ≡ ok v
    → (path : List Text) × (v
        ≡ record w { diagnostics = w.diagnostics ++ at_path code severity message path ∷ [] })
unfolding report
report-ok code severity message key w v h = elim (Option-cases (reference_path key)) [
  | inl bad ↦
      let thrown : report code severity message key w ≡ err malformed_uri = rw (bad, report) refl in
      cc
  | inr (path, found) ↦
      let pushed : report code severity message key w
          ≡ ok (record w {
            diagnostics = w.diagnostics ++ at_path code severity message path ∷ [];
          }) =
        rw (found, report) refl in
      (path, ok_value (sym h ∙ pushed))
]

pushed-Grows :
    (w : Walk) (ds : List Diagnostic) → Grows w (record w { diagnostics = w.diagnostics ++ ds })
pushed-Grows w ds = record {
  active = refl;
  visited = λ k h. h;
  errors = λ h. ground (arith, has_diagnostic_errors-append w.diagnostics ds);
}

-- The severity of an error.
abbrev is_fatal : Severity → Bool
is_fatal s = elim s [ error ↦ true | _ ↦ false ]

module _ (graph : ReferenceGraph) where
  -- The key is visited, being visited, or missing and reported.
  abbrev pub covered : Walk → Text → Bool
  covered w d =
      contains w.visited d
      || contains w.active d
      || not (contains graph.nodes d) && has_diagnostic_errors w.diagnostics

  pub covered_mono : (w v : Walk) (d : Text) → Grows w v → covered w d ≡ true → covered v d ≡ true
  covered_mono w v d g h =
      let same : contains v.active d ≡ contains w.active d = ap (λ l. contains l d) g.active in
      ground (arith, g.visited d, g.errors)

  -- The references of the visited keys are covered.
  pub record IsClosedUnder (w : Walk) : Type 0 where
    pub closed :
        (k : Text) → contains w.visited k ≡ true → All (λ d. covered w d ≡ true) (edges_of graph k)

  pub record Progress (k : Text) (w v : Walk) : Type 0 where
    pub grows : Grows w v
    pub closed : IsClosedUnder v
    pub reached : covered v k ≡ true

  report-Progress :
      (code : Text) (severity : Severity) (message key : Text) (w v : Walk)
      → IsClosedUnder w
      → (contains w.active key ≡ true) ⊎ (severity ≡ error) × (contains graph.nodes key ≡ false)
      → report code severity message key w ≡ ok v
      → Progress key w v
  report-Progress code severity message key w v c why h =
      let (path, pushed) = report-ok code severity message key w v h in
      let d = at_path code severity message path in
      let after = record w { diagnostics = w.diagnostics ++ d ∷ [] } in
      let grows : Grows w after = pushed-Grows w (d ∷ []) in
      subst (Progress key w) (sym pushed) (record {
        grows = grows;
        closed = record {
          closed = λ k m.
              All-imp (λ d. covered w d ≡ true) (λ d. covered after d ≡ true) (edges_of graph k)
                (λ d old. covered_mono w after d grows old) (c.closed k m);
        };
        reached = elim why [
          | inl is_active ↦ ground arith
          | inr (fatal, gone) ↦ reported path fatal gone
        ];
      })
    where
      reported :
          (path : List Text)
          → severity ≡ error
          → contains graph.nodes key ≡ false
          → covered
              (record w { diagnostics = w.diagnostics ++ at_path code severity message path ∷ [] })
              key
            ≡ true
      reported path fatal gone = ground (
        arith,
        has_diagnostic_errors-push w.diagnostics (at_path code severity message path)
            (ap is_fatal fatal),
      )

  pub each-Progress :
      (f : Text → Walk → Result WalkError Walk)
      → ((k : Text) (w v : Walk) → IsClosedUnder w → f k w ≡ ok v → Progress k w v)
      → (ks : List Text) (w v : Walk) → IsClosedUnder w
      → each f ks w ≡ ok v
      → Grows w v × IsClosedUnder v × All (λ k. covered v k ≡ true) ks
  unfolding each
  each-Progress f step [] w v c h =
      subst (λ u. Grows w u × IsClosedUnder u × Unit {0}) (ok_value h) (Grows-refl w, c, tt)
  each-Progress f step (k ∷ ks) w v c h =
      let (u, first, rest) = >>=-eq-ok (f k w) (λ u. each f ks u) h in
      let p = step k w u c first in
      let (grows, closed, reached) = each-Progress f step ks u v p.closed rest in
      (Grows-trans w u v p.grows grows, closed, (covered_mono u v k grows p.reached, reached))

  pub open-IsClosedUnder :
      (key : Text) (w : Walk) → IsClosedUnder w → IsClosedUnder (open_key key w)
  unfolding open_key contains
  open-IsClosedUnder key w c = record {
    closed = λ k m.
        All-imp (λ d. covered w d ≡ true) (λ d. covered (open_key key w) d ≡ true)
          (edges_of graph k) (λ d old. ground arith) (c.closed k m);
  }

  -- The key is closed behind the walk over its references.
  close-Progress :
      (key : Text) (w u : Walk)
      → contains w.active key ≡ false
      → Grows (open_key key w) u
      → IsClosedUnder u
      → All (λ d. covered u d ≡ true) (edges_of graph key)
      → Progress key w (close_key key u)
  unfolding open_key close_key contains
  close-Progress key w u new grows c edges = record {
    grows = record {
      active = ap (remove key) grows.active ∙ remove-cons_absent key w.active new;
      visited = λ k m. ground (arith, grows.visited k m);
      errors = grows.errors;
    };
    closed = record {
      closed = λ k m.
          All-imp (λ d. covered u d ≡ true) (λ d. covered (close_key key u) d ≡ true)
            (edges_of graph k)
            (λ d old.
              ground (arith, contains-remove key u.active d, text_eq_iff key d, text_eq_iff d key))
            (elim (Bool-cases (text_eq key k)) [
              | inl same ↦
                  subst (λ j. All (λ d. covered u d ≡ true) (edges_of graph j))
                    ((text_eq_iff key k).0 same) edges
              | inr other ↦ c.closed k (ground arith)
            ]);
    };
    reached = ground (arith, text_eq_iff key key);
  }

  visited-Progress :
      (target : Option Text) (fuel : ℕ) (k : Text) (w : Walk)
      → ((j : Text) (u v : Walk)
          → IsClosedUnder u
          → visit graph target fuel j u ≡ ok v
          → Progress j u v)
      → IsClosedUnder w
      → (r : Result WalkError Walk) → VisitView graph target fuel k w r
      → (v : Walk) → r ≡ ok v
      → Progress k w v
  visited-Progress target fuel k w step c r (on_path code message here) v h =
      report-Progress code info message k w v c (inl here) h
  visited-Progress target fuel k w step c r (seen old) v h =
      subst (Progress k w) (ok_value h)
        (record { grows = Grows-refl w; closed = c; reached = ground arith })
  visited-Progress target fuel k w step c r (absent code message gone) v h =
      report-Progress code error message k w v c (inr (refl, gone)) h
  visited-Progress target fuel k w step c r (entered off there) v h =
      let (u, walked, closing) =
        >>=-eq-ok (each (visit graph target fuel) (edges_of graph k) (open_key k w))
          (λ u. ok (close_key k u)) h in
      let (grows, closed, reached) =
        each-Progress (visit graph target fuel) step (edges_of graph k) (open_key k w) u
          (open-IsClosedUnder k w c) walked in
      subst (Progress k w) (ok_value closing) (close-Progress k w u off grows closed reached)

  pub visit-Progress :
      (target : Option Text) (fuel : ℕ) (k : Text) (w v : Walk)
      → IsClosedUnder w
      → visit graph target fuel k w ≡ ok v
      → Progress k w v
  unfolding visit
  visit-Progress target zero k w v c h = cc
  visit-Progress target (suc fuel) k w v c h =
      visited-Progress target fuel k w (visit-Progress target fuel) c _
        (visit-view graph target fuel k w) v h
