-- ===== src/GenerationLock/Tests.antt =====
-- Runs of a lock with a call that has the lock, one that is aborted while it waits, and a third.
use openapi_to.Common.{All, refl, Bool, [], ◌≡◌, List, ◌∷◌, ◌≤◌, ℕ, none, some, true, false}
use openapi_to.GenerationLock.{
  move_run, Move, step, Phase, waiting, running, leaving, released, grant, abort, enter, finish,
  leave, call, move, start, next, Run, Reach, has_released,
}
use openapi_to.GenerationLock.Exclusion.{reach_exclusive, is_inside}
use openapi_to.GenerationLock.Progress.{is_abort, moves, moves_release}

abbrev run_of : Phase → Bool → Run
run_of p a = record { phase = p; aborted = a }

abbrev waiters : List Run
waiters = run_of waiting false ∷ run_of waiting false ∷ run_of waiting false ∷ []

contended : Reach (run_of released false ∷ run_of running false ∷ run_of waiting false ∷ [])
unfolding step move_run
contended =
    next
      (next
        (next
          (next
            (next (next (next (next start (call false) refl) (call false) refl) (call false) refl)
              (move grant 0) refl)
            (move enter 0) refl)
          (move finish 0) refl)
        (move grant 1) refl)
      (move enter 1) refl

reach_exclusive_example :
    ((has_released released ≡ true) × Unit {0}) × ((is_inside waiting ≡ false) × Unit {0})
reach_exclusive_example =
    reach_exclusive (run_of released false ∷ []) (run_of waiting false ∷ []) (run_of running false)
      contended refl

-- The third call waits for the first to end, and for the second, which was aborted.
early_grant :
    step (move grant 2) (run_of running false ∷ run_of leaving true ∷ run_of waiting false ∷ [])
    ≡ none
unfolding step move_run
early_grant = refl

abbrev schedule : List (Move × ℕ)
schedule =
    (grant, 0)
    ∷ (abort, 1)
    ∷ (enter, 0)
    ∷ (finish, 0)
    ∷ (leave, 1)
    ∷ (grant, 2)
    ∷ (enter, 2)
    ∷ (finish, 2)
    ∷ []

abbrev ended : List Run
ended = run_of released false ∷ run_of released true ∷ run_of released false ∷ []

scheduled : moves schedule waiters ≡ some ended
unfolding moves move_run
scheduled = refl

moves_release_example :
    (8 ≤ 12)
    × (((m : Move) (i : ℕ) → is_abort m ≡ false → step (move m i) ended ≡ none)
        → All (λ r. has_released r.phase ≡ true) ended)
moves_release_example = moves_release waiters ended schedule scheduled
