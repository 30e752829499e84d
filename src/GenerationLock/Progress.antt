-- ===== src/GenerationLock/Progress.antt =====
-- Every call is released in the end, whatever the order of the moves.
use openapi_to.Common.{
  value_of, ◌∙◌, sym, refl, ap, zero, ◌&&◌, suc, subst, arith, ◌+◌, ◌<◌, ◌*◌, [], ◌⊎◌,
  if◌then◌else◌, ◌∷◌, ◌≡◌, ◌≤◌, Option, All, Bool, List, length, ℕ, none, some, true, false, inl,
  inr,
}
use openapi_to.GenerationLock.{
  waiting, granted, running, leaving, released, grant, abort, enter, finish, leave, move, Run,
  Phase, Move, move_run, move_at, step, has_released,
}
use openapi_to.GenerationLock.Exclusion.{built}

abbrev pub is_abort : Move → Bool
is_abort abort = true
is_abort _ = false

-- The moves that a call can still take.
abbrev left_of : Phase → Bool → ℕ
left_of p a =
    (if a then 0 else 1)
    + elim p [ waiting ↦ 3 | granted ↦ 2 | running ↦ 1 | leaving ↦ 1 | released ↦ 0 ]

abbrev left : List Run → ℕ
left [] = 0
left (r ∷ rs) = left_of r.phase r.aborted + left rs

move_run-left :
    (m : Move) (settled : Bool) (p : Phase) (a : Bool) (q : Run)
    → move_run m settled p a ≡ some q
    → left_of q.phase q.aborted < left_of p a
unfolding move_run
move_run-left grant true p a q h = ground arith
move_run-left grant false p a q h = cc h
move_run-left abort settled p true q h = cc h
move_run-left abort settled p false q h = ground arith
move_run-left enter settled p a q h = ground arith
move_run-left finish settled p a q h = ground arith
move_run-left leave true p a q h = ground arith
move_run-left leave false p a q h = cc h

move_at-left :
    (m : Move) (settled : Bool) (number : ℕ) (rs qs : List Run)
    → move_at m settled number rs ≡ some qs
    → (left qs < left rs)
unfolding move_at
move_at-left m settled number [] qs h = cc h
move_at-left m settled zero (r ∷ rs) qs h =
    let (q, e, same) = built (move_run m settled r.phase r.aborted) (λ q. q ∷ rs) qs h in
    subst (λ t. left t < left (r ∷ rs)) same
      (omega (arith, move_run-left m settled r.phase r.aborted q e))
move_at-left m settled (suc i) (r ∷ rs) qs h =
    let (ps, e, same) =
      built (move_at m (settled && has_released r.phase) i rs) (λ ps. r ∷ ps) qs h in
    subst (λ t. left t < left (r ∷ rs)) same
      (omega (arith, move_at-left m (settled && has_released r.phase) i rs ps e))

left-le : (rs : List Run) → left rs ≤ 4 * length rs
left-le [] = omega arith
left-le (r ∷ rs) = omega (arith, left-le rs, left_of-le r.phase r.aborted)
  where
    left_of-le : (p : Phase) (a : Bool) → left_of p a ≤ 4
    left_of-le p a = ground arith

-- Moves one after the other.
unfoldable pub moves : List (Move × ℕ) → List Run → Option (List Run)
unfolding step
moves [] rs = some rs
moves (m ∷ ms) rs = elim (step (move m.0 m.1) rs) [ none ↦ none | some qs ↦ moves ms qs ]

passed :
    (o : Option (List Run)) (f : List Run → Option (List Run)) (out : List Run)
    → elim o [ none ↦ none | some q ↦ f q ] ≡ some out
    → (q : List Run) × (o ≡ some q) × (f q ≡ some out)
passed none f out h = cc h
passed (some q) f out h = (q, refl, h)

moves-left :
    (ms : List (Move × ℕ)) (rs qs : List Run)
    → moves ms rs ≡ some qs
    → length ms + left qs ≤ left rs
unfolding moves step
moves-left [] rs qs h = rw (sym (value_of h)) (omega arith)
moves-left (m ∷ ms) rs qs h =
    let (ps, e, rest) = passed (move_at m.0 true m.1 rs) (moves ms) qs h in
    omega (arith, move_at-left m.0 true m.1 rs ps e, moves-left ms ps qs rest)

move_first :
    (p : Phase) (a : Bool)
    → (has_released p ≡ true)
      ⊎ ((m : Move) × (is_abort m ≡ false) × (q : Run) × (move_run m true p a ≡ some q))
unfolding move_run
move_first waiting a = inr (grant, refl, _, refl)
move_first granted a = inr (enter, refl, _, refl)
move_first running a = inr (finish, refl, _, refl)
move_first leaving a = inr (leave, refl, _, refl)
move_first released a = inl refl

built_none :
    {A B : Type 0} (o : Option A) (f : A → B)
    → elim o [ none ↦ none | some q ↦ some (f q) ] ≡ none
    → o ≡ none
built_none none f h = refl
built_none (some q) f h = cc h

-- The first call that has not released can move.
can_move :
    (rs : List Run)
    → All (λ r. has_released r.phase ≡ true) rs
      ⊎ ((m : Move) × (i : ℕ) × (is_abort m ≡ false) × ¬ (move_at m true i rs ≡ none))
unfolding move_at
can_move [] = inl tt
can_move (r ∷ rs) = elim (move_first r.phase r.aborted) [
  | inr (m, na, q, e) ↦ inr (
    m,
    zero,
    na,
    λ stuck. cc (e, built_none (move_run m true r.phase r.aborted) (λ q. q ∷ rs) stuck),
  )
  | inl done ↦ elim (can_move rs) [
    | inl all ↦ inl (done, all)
    | inr (m, i, na, can) ↦ inr (
      m,
      suc i,
      na,
      λ stuck. can (
          ap (λ b. move_at m b i rs) (sym done)
          ∙ built_none (move_at m (has_released r.phase) i rs) (λ qs. r ∷ qs) stuck),
    )
  ]
]

-- Moves of the calls, in any order, are at most four for each call, and when no move is left but an
-- abort event, every call has released: a call that fails or is aborted blocks none behind it.
pub moves_release :
    (rs qs : List Run) (ms : List (Move × ℕ))
    → moves ms rs ≡ some qs
    → (length ms ≤ 4 * length rs)
      × (((m : Move) (i : ℕ) → is_abort m ≡ false → step (move m i) qs ≡ none)
          → All (λ r. has_released r.phase ≡ true) qs)
unfolding step
moves_release rs qs ms h = (
  omega (arith, moves-left ms rs qs h, left-le rs),
  λ stuck. elim (can_move qs) [ inl all ↦ all | inr (m, i, na, can) ↦ absurd (can (stuck m i na)) ],
)
