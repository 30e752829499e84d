-- ===== src/PluginGraph/Outcome.antt =====
-- The walk keeps its invariant, its errors are true of the plugins, and its fuel is enough.
use openapi_to.Common.{
  ◌∙◌, ℕ, ◌≤◌, ◌≡◌, refl, true, none, List, [], ◌∷◌, Text, text_eq, text_eq_iff, text_equality,
  contains, length, Result, ok, err, ◌>>=◌, All, max, arith, Bool-cases, inl, inr, subst, sym,
  All-imp,
}
use openapi_to.Common.Dictionary.{get}
use openapi_to.PluginGraph.{
  Plugin, StageError, StageState, dependencies_of, stage_after, visit_dependencies,
}
use openapi_to.PluginGraph.Stages.{staged_names, stage_after-le}
use openapi_to.PluginGraph.Walk.{
  after_all, IsLayered, Extends, DependsOn, Reaches, one, Reaches-snoc, IsCalled, IsChain, IsWalk,
  Explains, Visited, VisitOutcome,
}

pub Extends-refl : (s : List (List Plugin)) → Extends s s
Extends-refl s = record { kept = λ n h. h; in_place = λ n h. refl }

pub Extends-trans : (s t u : List (List Plugin)) → Extends s t → Extends t u → Extends s u
Extends-trans s t u h k = record {
  kept = λ n m. k.kept n (h.kept n m);
  in_place = λ n m. k.in_place n (h.kept n m) ∙ h.in_place n m;
}

pub after_all-le :
    (ds : List Text) (k : ℕ) (ss : List (List Plugin))
    → k ≤ length ss
    → after_all ds k ss ≤ length ss
after_all-le [] k ss h = h
after_all-le (d ∷ ds) k ss h =
    after_all-le ds (max k (stage_after d ss)) ss (omega (arith, stage_after-le d ss))

after_all-Extends :
    (ds : List Text) (k : ℕ) (s t : List (List Plugin))
    → Extends s t
    → All (λ d. contains (staged_names s) d ≡ true) ds
    → after_all ds k t ≡ after_all ds k s
after_all-Extends [] k s t e h = refl
after_all-Extends (d ∷ ds) k s t e h =
    rw (e.in_place d h.0) (after_all-Extends ds (max k (stage_after d s)) s t e h.1)

pub IsLayered-Extends :
    (s t : List (List Plugin))
    → Extends s t
    → (i : ℕ) (p : Plugin) → IsLayered s i p
    → IsLayered t i p
IsLayered-Extends s t e i p h = (
  All-imp _ _ (dependencies_of p) e.kept h.0,
  after_all-Extends (dependencies_of p) 0 s t e h.0 ∙ h.1,
)

module _ (plugins : List (Text × Plugin)) where
  chain-Reaches :
      (v : Text) (vs : List Text) (n : Text)
      → IsChain plugins (v ∷ vs)
      → contains vs n ≡ true
      → Reaches plugins n v
  unfolding contains
  chain-Reaches v [] n h m = cc
  chain-Reaches v (w ∷ vs) n h m = elim (Bool-cases (text_eq w n)) [
    | inl same ↦ one (subst (λ t. DependsOn plugins t v) ((text_eq_iff w n).0 same) h.1)
    | inr other ↦ Reaches-snoc plugins (chain-Reaches w vs n h.2 (ground arith)) h.1
  ]

  pub cyclic-Explains :
      (name : Text) (vs : List Text)
      → IsChain plugins vs
      → IsCalled plugins name vs
      → contains vs name ≡ true
      → Reaches plugins name name
  unfolding contains
  cyclic-Explains name [] h c m = cc
  cyclic-Explains name (v ∷ vs) h c m = elim (Bool-cases (text_eq v name)) [
    | inl same ↦ one (subst (λ t. DependsOn plugins t name) ((text_eq_iff v name).0 same) c)
    | inr other ↦ Reaches-snoc plugins (chain-Reaches v vs name h (ground arith)) c
  ]

  pub not_found-Explains :
      (name : Text) (vs : List Text)
      → IsCalled plugins name vs
      → get name plugins ≡ none
      → (a : Text) × DependsOn plugins a name
  not_found-Explains name [] c e = cc (c.1, e)
  not_found-Explains name (v ∷ vs) c e = (v, c)

  pub record FoundAll (ds : List Text) (k : ℕ) (s : StageState) (stage : ℕ) (t : StageState)
      : Type 0 where
    pub walk : IsWalk plugins t
    pub extends : Extends s.stages t.stages
    pub found : All (λ d. contains (staged_names t.stages) d ≡ true) ds
    pub same_visiting : t.visiting ≡ s.visiting
    pub after : stage ≡ after_all ds k t.stages

  abbrev pub FoundOutcome : List Text → ℕ → StageState → Result StageError (ℕ × StageState) → Type 0
  FoundOutcome ds k s (ok r) = FoundAll ds k s r.0 r.1
  FoundOutcome ds k s (err e) = Explains plugins e

  FoundOutcome-cons :
      (d : Text) (ds : List Text) (k : ℕ) (s t : StageState)
      (r : Result StageError (ℕ × StageState))
      → Visited plugins d s t
      → FoundOutcome ds (max k (stage_after d t.stages)) t r
      → FoundOutcome (d ∷ ds) k s r
  FoundOutcome-cons d ds k s t (err e) h q = q
  FoundOutcome-cons d ds k s t (ok (stage, u)) h q =
      let here : contains (staged_names t.stages) d ≡ true = sym (h.walk.staged d) ∙ h.found in
      record {
        walk = q.walk;
        extends = Extends-trans s.stages t.stages u.stages h.extends q.extends;
        found = (q.extends.kept d here, q.found);
        same_visiting = q.same_visiting ∙ h.same_visiting;
        after = rw (q.extends.in_place d here) q.after;
      }

  pub visit_dependencies_outcome :
      (f : Text → StageState → Result StageError StageState) (visiting : List Text)
      → ((d : Text) (s : StageState)
          → IsWalk plugins s
          → s.visiting ≡ visiting
          → IsCalled plugins d visiting
          → VisitOutcome plugins d s (f d s))
      → (ds : List Text) (k : ℕ) (s : StageState) → All (λ d. IsCalled plugins d visiting) ds
      → IsWalk plugins s
      → s.visiting ≡ visiting
      → FoundOutcome ds k s (visit_dependencies f ds k s)
  unfolding visit_dependencies
  visit_dependencies_outcome f visiting visits [] k s calls w e = record {
    walk = w;
    extends = Extends-refl s.stages;
    found = tt;
    same_visiting = refl;
    after = refl;
  }
  visit_dependencies_outcome f visiting visits (d ∷ ds) k s calls w e =
      elim (f d s)
          as (λ r.
            VisitOutcome plugins d s r
            → FoundOutcome (d ∷ ds) k s
                (r >>= λ t. visit_dependencies f ds (max k (stage_after d t.stages)) t)) [
                  | err x ↦ λ h. h
                  | ok t ↦ λ h.
                      FoundOutcome-cons d ds k s t
                        (visit_dependencies f ds (max k (stage_after d t.stages)) t) h
                        (visit_dependencies_outcome f visiting visits ds
                          (max k (stage_after d t.stages)) t calls.1 h.walk (h.same_visiting ∙ e))
                ]
        (visits d s w e calls.0)
