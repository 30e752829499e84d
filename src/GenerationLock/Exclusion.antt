-- ===== src/GenerationLock/Exclusion.antt =====
-- Mutual exclusion, in the order of the calls.
use openapi_to.Common.{
  refl, none, some, true, false, Option, zero, suc, value_of, [], arith, subst, ◌&&◌, All, ◌∷◌, ◌≡◌,
  ◌++◌, Bool, List, ℕ,
}
use openapi_to.GenerationLock.{
  waiting, granted, running, leaving, released, grant, abort, enter, finish, leave, call, move,
  called, Run, Phase, Move, Reach, start, next, move_run, move_at, step, has_released,
}

-- The call has the lock.
abbrev pub is_inside : Phase → Bool
is_inside granted = true
is_inside running = true
is_inside _ = false

inside_unreleased : (p : Phase) → is_inside p ≡ true → has_released p ≡ false
inside_unreleased released h = cc h
inside_unreleased waiting h = refl
inside_unreleased granted h = refl
inside_unreleased running h = refl
inside_unreleased leaving h = refl

-- A call is inside only when its `previous` is settled.
abbrev IsOrdered : Bool → List Run → Type 0
IsOrdered settled [] = Unit
IsOrdered settled (r ∷ rs) =
    (is_inside r.phase ≡ true → settled ≡ true) × IsOrdered (settled && has_released r.phase) rs

IsOrdered-later :
    (a b : Bool) (rs : List Run) → (a ≡ true → b ≡ true) → IsOrdered a rs → IsOrdered b rs
IsOrdered-later a b [] h k = tt
IsOrdered-later a b (r ∷ rs) h k = (
  λ i. h (k.0 i),
  IsOrdered-later (a && has_released r.phase) (b && has_released r.phase) rs
      (λ e. ground (arith, h)) k.1,
)

-- A move takes a call inside only when `previous` is settled, and keeps a call that has released.
move_run-keeps :
    (m : Move) (settled : Bool) (p : Phase) (a : Bool) (q : Run)
    → (is_inside p ≡ true → settled ≡ true)
    → move_run m settled p a ≡ some q
    → (is_inside q.phase ≡ true → settled ≡ true)
      × (has_released p ≡ true → has_released q.phase ≡ true)
unfolding move_run
move_run-keeps grant true waiting a q i h = (λ _. refl, λ e. cc e)
move_run-keeps grant true granted a q i h = cc h
move_run-keeps grant true running a q i h = cc h
move_run-keeps grant true leaving a q i h = cc h
move_run-keeps grant true released a q i h = cc h
move_run-keeps grant false p a q i h = cc h
move_run-keeps abort settled p true q i h = cc h
move_run-keeps abort settled p false q i h = ground arith
move_run-keeps enter settled p a q i h = ground arith
move_run-keeps finish settled p a q i h = ground arith
move_run-keeps leave true p a q i h = ground arith
move_run-keeps leave false p a q i h = cc h

-- A result that is built from another.
pub built :
    {A B : Type 0} (o : Option A) (f : A → B) (out : B)
    → elim o [ none ↦ none | some q ↦ some (f q) ] ≡ some out
    → (q : A) × (o ≡ some q) × (f q ≡ out)
built none f out h = cc h
built (some q) f out h = (q, refl, value_of h)

move_at-IsOrdered :
    (m : Move) (settled : Bool) (number : ℕ) (rs qs : List Run)
    → IsOrdered settled rs
    → move_at m settled number rs ≡ some qs
    → IsOrdered settled qs
unfolding move_at
move_at-IsOrdered m settled number [] qs o h = cc h
move_at-IsOrdered m settled zero (r ∷ rs) qs o h =
    let (q, e, same) = built (move_run m settled r.phase r.aborted) (λ q. q ∷ rs) qs h in
    let (inside, free) = move_run-keeps m settled r.phase r.aborted q o.0 e in
    subst (IsOrdered settled) same (
      inside,
      IsOrdered-later (settled && has_released r.phase) (settled && has_released q.phase) rs
          (λ b. ground (arith, free)) o.1,
    )
move_at-IsOrdered m settled (suc i) (r ∷ rs) qs o h =
    let (ps, e, same) =
      built (move_at m (settled && has_released r.phase) i rs) (λ ps. r ∷ ps) qs h in
    subst (IsOrdered settled) same
      (o.0, move_at-IsOrdered m (settled && has_released r.phase) i rs ps o.1 e)

IsOrdered-called :
    (settled aborted : Bool) (rs : List Run)
    → IsOrdered settled rs
    → IsOrdered settled (rs ++ called aborted ∷ [])
IsOrdered-called settled true [] o = (λ e. cc e, tt)
IsOrdered-called settled false [] o = (λ e. cc e, tt)
IsOrdered-called settled aborted (r ∷ rs) o =
    (o.0, IsOrdered-called (settled && has_released r.phase) aborted rs o.1)

Reach-IsOrdered : {rs : List Run} → Reach rs → IsOrdered true rs
unfolding step
Reach-IsOrdered start = tt
Reach-IsOrdered (next {rs} {qs} r (call aborted) h) =
    subst (IsOrdered true) (value_of h) (IsOrdered-called true aborted rs (Reach-IsOrdered r))
Reach-IsOrdered (next {rs} {qs} r (move m i) h) =
    move_at-IsOrdered m true i rs qs (Reach-IsOrdered r) h

none_inside :
    (settled : Bool) (rs : List Run)
    → settled ≡ false
    → IsOrdered settled rs
    → All (λ q. is_inside q.phase ≡ false) rs
none_inside settled [] e o = tt
none_inside settled (r ∷ rs) e o =
    (ground (arith, o.0), none_inside (settled && has_released r.phase) rs (ground arith) o.1)

ordered_split :
    (settled : Bool) (before after : List Run) (r : Run)
    → IsOrdered settled (before ++ r ∷ after)
    → is_inside r.phase ≡ true
    → (settled ≡ true)
      × All (λ q. has_released q.phase ≡ true) before
      × All (λ q. is_inside q.phase ≡ false) after
ordered_split settled [] after r o i = (
  o.0 i,
  tt,
  none_inside (settled && has_released r.phase) after (ground (arith, inside_unreleased r.phase i))
      o.1,
)
ordered_split settled (b ∷ bs) after r o i =
    let (s, x, y) = ordered_split (settled && has_released b.phase) bs after r o.1 i in
    (ground arith, (ground arith, x), y)

-- In every state that a lock reaches, when a call has the lock, that is, its `waitForTurn` is resolved
-- or its `operation` is running, every call before it has released and no later call has the lock.
pub reach_exclusive :
    (before after : List Run) (r : Run)
    → Reach (before ++ r ∷ after)
    → is_inside r.phase ≡ true
    → All (λ q. has_released q.phase ≡ true) before × All (λ q. is_inside q.phase ≡ false) after
reach_exclusive before after r reach i =
    let (_, free, alone) = ordered_split true before after r (Reach-IsOrdered reach) i in
    (free, alone)
