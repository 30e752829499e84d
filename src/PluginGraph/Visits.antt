-- ===== src/PluginGraph/Visits.antt =====
-- A visit keeps the invariant of the walk, or ends in an error that is true of the plugins.
use openapi_to.Common.{
  length-IsNub-le, map, All-of_contains, length-map, ◌∙◌, ℕ, zero, suc, ◌≤◌, ◌<◌, ◌+◌, ◌≡◌, refl,
  true, false, some, List, [], ◌∷◌, Text, text_eq, text_eq_iff, text_equality, contains, length,
  Result, ok, err, ◌>>=◌, All, IsNub, arith, Bool-cases, Option-cases, inl, inr, subst, sym, remove,
  remove-cons_absent,
}
use openapi_to.Common.Dictionary.{get}
use openapi_to.PluginGraph.{
  Plugin, StageError, StageState, dependencies_of, visit, open_name, close_name, push_stage,
}
use openapi_to.PluginGraph.Stages.{
  staged_names, AllStages-imp, stage_after-place, contains-place, IsNub-place, AllStages-place,
  place, push_stage-place,
}
use openapi_to.PluginGraph.Walk.{
  IsLayered, Extends, DependsOn, IsCalled, IsChain, IsStaging, IsWalk, Visited, VisitOutcome,
}
use openapi_to.PluginGraph.Outcome.{
  Extends-trans, Extends-refl, after_all-le, IsLayered-Extends, cyclic-Explains, not_found-Explains,
  FoundAll, FoundOutcome, visit_dependencies_outcome,
}

-- Each plugin is listed under its name.
abbrev pub IsByName : List (Text × Plugin) → Type 0
IsByName plugins = (n : Text) (p : Plugin) → get n plugins ≡ some p → p.name ≡ n

contains_of_get :
    (k : Text) (m : List (Text × Plugin)) (p : Plugin)
    → get k m ≡ some p
    → contains (map (λ (e : Text × Plugin). e.0) m) k ≡ true
unfolding get contains
contains_of_get k [] p h = cc
contains_of_get k ((j, q) ∷ m) p h = ground (arith, contains_of_get k m p)

module _ (plugins : List (Text × Plugin)) (named : IsByName plugins) where
  known_names :
      (visiting : List Text)
      → IsChain plugins visiting
      → All (λ n. contains (map (λ (e : Text × Plugin). e.0) plugins) n ≡ true) visiting
  known_names [] c = tt
  known_names (v ∷ vs) c = (contains_of_get v plugins c.0.0 c.0.1, known_names vs c.2)

  dependencies_called :
      (name : Text) (p : Plugin)
      → get name plugins ≡ some p
      → All (DependsOn plugins name) (dependencies_of p)
  dependencies_called name p g =
      All-of_contains (DependsOn plugins name) (dependencies_of p) (λ d m. (p, g, m))

  open_name-IsWalk :
      (name : Text) (p : Plugin) (s : StageState)
      → IsWalk plugins s
      → contains s.visited name ≡ false
      → contains s.visiting name ≡ false
      → get name plugins ≡ some p
      → IsCalled plugins name s.visiting
      → IsWalk plugins (open_name name s)
  unfolding open_name contains
  open_name-IsWalk name p s w fresh out g c = record {
    staging = w.staging;
    staged = w.staged;
    apart = λ n m. elim (Bool-cases (text_eq name n)) [
      | inl same ↦ subst (λ t. contains s.visited t ≡ false) ((text_eq_iff name n).0 same) fresh
      | inr other ↦ w.apart n (ground arith)
    ];
    distinct = (out, w.distinct);
    chain = ((p, g), c, w.chain);
  }

  module _ (name : Text) (p : Plugin) (s t : StageState) (stage : ℕ) (w : IsWalk plugins s)
      (out : contains s.visiting name ≡ false) (g : get name plugins ≡ some p)
      (found : FoundAll plugins (dependencies_of p) 0 (open_name name s) stage t) where
    stage_fits : stage ≤ length t.stages
    stage_fits = rw found.after (after_all-le (dependencies_of p) 0 t.stages (omega arith))

    visiting_of : t.visiting ≡ name ∷ s.visiting
    unfolding open_name
    visiting_of = found.same_visiting

    unstaged : contains (staged_names t.stages) p.name ≡ false
    unfolding contains
    unstaged = rw (named name p g) (
        sym (found.walk.staged name)
        ∙ found.walk.apart name (rw visiting_of (rw ((text_eq_iff name name).1 refl) refl)))

    Extends-place : Extends t.stages (place stage p t.stages)
    Extends-place = record {
      kept = λ n m. ground (arith, contains-place p stage t.stages n);
      in_place = λ n m. ground (
        arith,
        stage_after-place p stage t.stages n stage_fits unstaged,
        text_eq_iff p.name n,
        unstaged,
      );
    }

    IsStaging-of : IsStaging plugins (place stage p t.stages)
    IsStaging-of = record {
      once = IsNub-place p stage t.stages found.walk.staging.once unstaged;
      known =
          AllStages-place p (λ i q. get q.name plugins ≡ some q) 0 stage t.stages stage_fits
            found.walk.staging.known (subst (λ n. get n plugins ≡ some p) (sym (named name p g)) g);
      layered =
          AllStages-place p (IsLayered (place stage p t.stages)) 0 stage t.stages stage_fits
            (AllStages-imp (IsLayered t.stages) (IsLayered (place stage p t.stages)) 0 t.stages
              (IsLayered-Extends t.stages (place stage p t.stages) Extends-place)
              found.walk.staging.layered)
            (subst (λ i. IsLayered (place stage p t.stages) i p) (omega arith)
              (IsLayered-Extends t.stages (place stage p t.stages) Extends-place stage p
                (found.found, sym found.after)));
    }

    visiting_closed : remove name t.visiting ≡ s.visiting
    visiting_closed = rw visiting_of (remove-cons_absent name s.visiting out)

    close_name-Visited : Visited plugins name s (close_name name (place stage p t.stages) t)
    unfolding close_name contains open_name
    close_name-Visited = record {
      walk = record {
        staging = IsStaging-of;
        staged = λ n.
            ground (arith, contains-place p stage t.stages n, found.walk.staged n, named name p g);
        apart = λ n m.
            let m' : contains s.visiting n ≡ true = rw visiting_closed at m in
            ground (
              arith,
              text_eq_iff name n,
              found.walk.apart n (rw visiting_of (ground (arith, text_eq_iff name n))),
              m',
              out,
            );
        distinct = rw visiting_closed w.distinct;
        chain = rw visiting_closed w.chain;
      };
      extends =
          Extends-trans s.stages t.stages (place stage p t.stages) found.extends Extends-place;
      found = ground (arith, text_eq_iff name name);
      same_visiting = visiting_closed;
    }

  visit_done :
      (name : Text) (s : StageState)
      → IsWalk plugins s
      → contains s.visited name ≡ true
      → Visited plugins name s s
  visit_done name s w h = record {
    walk = w;
    extends = Extends-refl s.stages;
    found = h;
    same_visiting = refl;
  }

  -- The end of a visit, for what the visits of the dependencies gave.
  visit_end :
      (name : Text) (p : Plugin) (s : StageState) (r : Result StageError (ℕ × StageState))
      → IsWalk plugins s
      → contains s.visiting name ≡ false
      → get name plugins ≡ some p
      → FoundOutcome plugins (dependencies_of p) 0 (open_name name s) r
      → VisitOutcome plugins name s
          (r >>= λ q. push_stage q.0 p q.1.stages >>= λ stages. ok (close_name name stages q.1))
  visit_end name p s (err e) w out g h = h
  visit_end name p s (ok (stage, t)) w out g h =
      rw (push_stage-place stage p t.stages (stage_fits name p s t stage w out g h))
        (close_name-Visited name p s t stage w out g h)

  -- The names on the way to a call are different plugins.
  length-visiting-le :
      (visiting : List Text)
      → IsNub visiting
      → IsChain plugins visiting
      → length visiting ≤ length plugins
  length-visiting-le visiting d c = omega (
    arith,
    length-map plugins (λ (e : Text × Plugin). e.0),
    length-IsNub-le visiting (map (λ (e : Text × Plugin). e.0) plugins) d (known_names visiting c),
  )

  pub visit_outcome :
      (fuel : ℕ) (name : Text) (s : StageState)
      → IsWalk plugins s
      → IsCalled plugins name s.visiting
      → length plugins < fuel + length s.visiting
      → VisitOutcome plugins name s (visit plugins fuel name s)
  unfolding visit open_name
  visit_outcome zero name s w c h =
      absurd (omega (arith, length-visiting-le s.visiting w.distinct w.chain))
  visit_outcome (suc fuel) name s w c h = elim (Bool-cases (contains s.visited name)) [
    | inl done ↦ rw (done, visit) (visit_done name s w done)
    | inr fresh ↦
        rw (fresh, visit)
          (elim (Bool-cases (contains s.visiting name)) [
            | inl again ↦ rw again (cyclic-Explains plugins name s.visiting w.chain c again)
            | inr out ↦ rw out (elim (Option-cases (get name plugins)) [
              | inl e ↦ rw e (e, not_found-Explains plugins name s.visiting c e)
              | inr (p, g) ↦ rw g (
                  visit_end name p s _ w out g (
                    visit_dependencies_outcome plugins (visit plugins fuel) (name ∷ s.visiting)
                      (λ d t v e c'.
                        visit_outcome fuel d t v (subst (λ l. IsCalled plugins d l) (sym e) c')
                          (rw e (omega arith)))
                      (dependencies_of p) 0 (open_name name s) (dependencies_called name p g)
                      (open_name-IsWalk name p s w fresh out g c) refl))
            ])
          ])
  ]
