-- ===== src/PluginGraph/Sorting.antt =====
-- What `sortPluginsByStages` returns or throws.
use openapi_to.Common.{
  ◌∙◌, suc, ◌≡◌, refl, true, some, List, [], ◌∷◌, Text, text_eq, text_eq_iff, text_equality,
  contains, length, Result, ok, err, ◌>>=◌, All, arith, Bool-cases, inl, inr, subst, sym,
  if◌then◌else◌, value_of,
}
use openapi_to.Common.Dictionary.{get, put, get-put, get-put_self}
use openapi_to.PluginGraph.{
  Plugin, StageError, StageState, visit, visit_each, by_name, add_by_name, sort_plugins_by_stages,
}
use openapi_to.PluginGraph.Stages.{staged_names}
use openapi_to.PluginGraph.Walk.{Extends, IsStaging, IsWalk, Explains, Visited, VisitOutcome}
use openapi_to.PluginGraph.Outcome.{Extends-trans, Extends-refl}
use openapi_to.PluginGraph.Visits.{IsByName, visit_outcome}

add_by_name-IsByName :
    (ps : List Plugin) (m : List (Text × Plugin)) → IsByName m → IsByName (add_by_name ps m)
unfolding add_by_name
add_by_name-IsByName [] m h = h
add_by_name-IsByName (p ∷ ps) m h = add_by_name-IsByName ps (put p.name p m) (λ n q e.
    elim (Bool-cases (text_eq p.name n)) [
      | inl same ↦
          let found : p ≡ q =
            value_of (rw (same, if◌then◌else◌) at (sym (get-put p.name p m n) ∙ e)) in
          subst (λ (x : Plugin). x.name ≡ n) found ((text_eq_iff p.name n).0 same)
      | inr other ↦ h n q (rw (other, if◌then◌else◌) at (sym (get-put p.name p m n) ∙ e))
    ])

-- A name that the dictionary has is kept.
add_by_name-kept :
    (ps : List Plugin) (m : List (Text × Plugin)) (n : Text)
    → ((q : Plugin) × (get n m ≡ some q))
    → ((q : Plugin) × (get n (add_by_name ps m) ≡ some q))
unfolding add_by_name
add_by_name-kept [] m n h = h
add_by_name-kept (p ∷ ps) m n h =
    add_by_name-kept ps (put p.name p m) n (elim (Bool-cases (text_eq p.name n)) [
      | inl same ↦ (p, get-put p.name p m n ∙ rw same refl)
      | inr other ↦ (h.0, get-put p.name p m n ∙ rw other h.1)
    ])

add_by_name-listed :
    (ps : List Plugin) (m : List (Text × Plugin))
    → All (λ p. (q : Plugin) × (get p.name (add_by_name ps m) ≡ some q)) ps
unfolding add_by_name
add_by_name-listed [] m = tt
add_by_name-listed (p ∷ ps) m = (
  add_by_name-kept ps (put p.name p m) p.name (p, get-put_self p.name p m),
  add_by_name-listed ps (put p.name p m),
)

module _ (plugins : List (Text × Plugin)) (named : IsByName plugins) where
  -- After the loop every plugin stands in a stage.
  record AllVisited (ps : List Plugin) (s t : StageState) : Type 0 where
    pub walk : IsWalk plugins t
    pub extends : Extends s.stages t.stages
    pub found : All (λ p. contains (staged_names t.stages) p.name ≡ true) ps

  abbrev LoopOutcome : List Plugin → StageState → Result StageError StageState → Type 0
  LoopOutcome ps s (ok t) = AllVisited ps s t
  LoopOutcome ps s (err e) = Explains plugins e

  LoopOutcome-cons :
      (p : Plugin) (ps : List Plugin) (s t : StageState) (r : Result StageError StageState)
      → Visited plugins p.name s t
      → LoopOutcome ps t r
      → LoopOutcome (p ∷ ps) s r
  LoopOutcome-cons p ps s t (err e) h q = q
  LoopOutcome-cons p ps s t (ok u) h q = record {
    walk = q.walk;
    extends = Extends-trans s.stages t.stages u.stages h.extends q.extends;
    found = (q.extends.kept p.name (sym (h.walk.staged p.name) ∙ h.found), q.found);
  }

  visit_each_outcome :
      (ps : List Plugin) (s : StageState)
      → All (λ p. (q : Plugin) × (get p.name plugins ≡ some q)) ps
      → IsWalk plugins s
      → s.visiting ≡ []
      → LoopOutcome ps s (visit_each plugins (suc (length plugins)) ps s)
  unfolding visit_each
  visit_each_outcome [] s h w e = record { walk = w; extends = Extends-refl s.stages; found = tt }
  visit_each_outcome (p ∷ ps) s h w e =
      elim (visit plugins (suc (length plugins)) p.name s)
          as (λ r.
            VisitOutcome plugins p.name s r
            → LoopOutcome (p ∷ ps) s (r >>= λ t. visit_each plugins (suc (length plugins)) ps t)) [
              | err x ↦ λ v. v
              | ok t ↦ λ v.
                  LoopOutcome-cons p ps s t (visit_each plugins (suc (length plugins)) ps t) v
                    (visit_each_outcome ps t h.1 v.walk (v.same_visiting ∙ e))
            ]
        (visit_outcome plugins named (suc (length plugins)) p.name s w (rw e h.0)
          (rw e (omega arith)))

-- The stages of the plugins: every plugin stands in them, under its name once, and is the last of
-- the plugins that have the name; all that it depends on stand in stages before its own; and its
-- own is the first after these. An error names a plugin that depends on itself through others, or a
-- name that some plugin depends on and no plugin has.
abbrev pub StagingOutcome : List Plugin → Result StageError (List (List Plugin)) → Type 0
StagingOutcome plugins (ok stages) =
    All (λ p. contains (staged_names stages) p.name ≡ true) plugins
    × IsStaging (by_name plugins) stages
StagingOutcome plugins (err e) = Explains (by_name plugins) e

by_name-IsByName : (plugins : List Plugin) → IsByName (by_name plugins)
unfolding by_name get
by_name-IsByName plugins = add_by_name-IsByName plugins [] (λ n p e. cc e)

staging_of_loop :
    (plugins : List Plugin) (s : StageState) (r : Result StageError StageState)
    → LoopOutcome (by_name plugins) (by_name-IsByName plugins) plugins s r
    → StagingOutcome plugins (r >>= λ t. ok t.stages)
staging_of_loop plugins s (err e) h = h
staging_of_loop plugins s (ok t) h = (h.found, h.walk.staging)

-- Sorting plugins either gives their stages or an error that is true of them. In the stages every
-- name of a plugin stands once, with the last plugin of that name; each plugin's dependencies stand
-- in earlier stages, and its own stage is the first after all of them. A cycle is reported for a
-- plugin that depends on itself through a chain of plugins, and a missing plugin for a name that
-- some plugin depends on and that no plugin has; there is no other error, and the recursion ends.
pub sort_plugins-StagingOutcome :
    (plugins : List Plugin) → StagingOutcome plugins (sort_plugins_by_stages plugins)
unfolding sort_plugins_by_stages by_name contains
sort_plugins-StagingOutcome plugins =
    let start : StageState = record { visited = []; visiting = []; stages = [] } in
    staging_of_loop plugins start
      (visit_each (by_name plugins) (suc (length (by_name plugins))) plugins start)
      (visit_each_outcome (by_name plugins) (by_name-IsByName plugins) plugins start
        (add_by_name-listed plugins [])
        (record {
          staging = record { once = tt; known = tt; layered = tt };
          staged = λ n. refl;
          apart = λ n m. cc m;
          distinct = tt;
          chain = tt;
        })
        refl)
