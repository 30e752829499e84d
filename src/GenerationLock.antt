-- ===== src/GenerationLock.antt =====
-- packages/mcp/src/generation/generation-lock.ts: the promises of `run` as the states of its calls.
-- Reactions to a promise are moves of their own, so that they interleave with those of other calls.
pub mod Exclusion
pub mod Progress
pub mod Tests
use openapi_to.Common.{
  ℕ, zero, suc, ◌≡◌, Bool, true, false, ◌&&◌, Option, none, some, List, [], ◌∷◌, ◌++◌,
}

-- Where a call of `run` stands: `previous` is pending or has just settled, which `waitForTurn` does
-- not show yet; `waitForTurn` is resolved; `operation` is running; `waitForTurn` is rejected and
-- `previous.finally(release)` is pending; `release` was called, which resolves `completion`.
pub data Phase : Type 0 where
  waiting granted running leaving released : Phase

-- `signal.aborted` is false without a signal.
pub record Run : Type 0 where
  pub phase : Phase
  pub aborted : Bool

abbrev pub has_released : Phase → Bool
has_released released = true
has_released _ = false

-- A reaction to `previous`, an abort event, the continuation behind `await waitForTurn`, the end of
-- `operation`, and `previous.finally(release)`.
pub data Move : Type 0 where
  grant abort enter finish leave : Move

-- A move of one call, from its phase and `signal.aborted`; `settled` is whether its `previous` is
-- settled. A call without a signal is one that is never aborted.
unfoldable pub move_run : Move → Bool → Phase → Bool → Option Run
move_run grant true waiting a = some (record { phase = granted; aborted = a })
move_run abort settled p false = some (record {
  phase = elim p [
    | waiting ↦ leaving
    | granted ↦ granted
    | running ↦ running
    | leaving ↦ leaving
    | released ↦ released
  ];
  aborted = true;
})
move_run enter settled granted a =
    some (record { phase = elim a [ true ↦ released | false ↦ running ]; aborted = a })
move_run finish settled running a = some (record { phase = released; aborted = a })
move_run leave true leaving a = some (record { phase = released; aborted = a })
move_run _ _ _ _ = none

-- `this.tail` of a call is `previous.then(() => completion)`: it is settled when `previous` is and
-- the call has released.
unfoldable pub move_at : Move → Bool → ℕ → List Run → Option (List Run)
move_at m settled i [] = none
move_at m settled zero (r ∷ rs) = elim (move_run m settled r.phase r.aborted) [
  | none ↦ none
  | some q ↦ some (q ∷ rs)
]
move_at m settled (suc i) (r ∷ rs) = elim (move_at m (settled && has_released r.phase) i rs) [
  | none ↦ none
  | some qs ↦ some (r ∷ qs)
]

-- A call with a signal that is aborted is rejected at once.
abbrev pub called : Bool → Run
called aborted = record {
  phase = elim aborted [ true ↦ leaving | false ↦ waiting ];
  aborted = aborted;
}

-- What happens to a lock: a call of `run`, or a move of the call with the given number.
pub data Event : Type 0 where
  call : (aborted : Bool) → Event
  move : (m : Move) → (number : ℕ) → Event

-- A lock is the list of the calls of its `run`, in their order; the first `previous` is settled.
unfoldable pub step : Event → List Run → Option (List Run)
unfolding move_at
step (call aborted) rs = some (rs ++ called aborted ∷ [])
step (move m number) rs = move_at m true number rs

pub data Reach : List Run → Type 0 where
  start : Reach []
  next : {rs qs : List Run} → Reach rs → (e : Event) → step e rs ≡ some qs → Reach qs
