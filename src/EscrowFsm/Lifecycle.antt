-- ===== src/EscrowFsm/Lifecycle.antt =====
-- src/protocol/escrow-fsm.ts: the paths through the state machine.
use x402_agent_suite.Base.{
  ℕ, ◌+◌, ◌≤◌, ◌<◌, ◌≡◌, refl, ap, ◌⊎◌, inl, inr, true, List, [], ◌∷◌, ◌++◌, length, length-append,
  arith,
}
use x402_agent_suite.EscrowFsm.{
  EscrowState, created, funded, locked, executing, delivered, verified, settled, refunded, disputed,
  cancelled, is_allowed,
}

-- A bound on the transitions taken so far: every transition raises it.
abbrev pub rank : EscrowState → ℕ
rank created = 0
rank funded = 1
rank locked = 2
rank executing = 3
rank delivered = 4
rank verified = 5
rank disputed = 6
rank settled = 7
rank refunded = 7
rank cancelled = 7

rank-lt_of_allowed : (from to : EscrowState) → is_allowed from to ≡ true → rank from < rank to
unfolding is_allowed
rank-lt_of_allowed created created h = ground arith
rank-lt_of_allowed _ _ h = ground arith

-- The states that an escrow has been in, oldest first: from CREATED by allowed transitions.
pub data Trace : EscrowState → List EscrowState → Type 0 where
  start : {states : List EscrowState} → states ≡ created ∷ [] → Trace created states
  step :
      {from : EscrowState} {earlier : List EscrowState} (to : EscrowState)
      {states : List EscrowState}
      → Trace from earlier
      → is_allowed from to ≡ true
      → states ≡ earlier ++ to ∷ []
      → Trace to states

pub length-Trace :
    {s : EscrowState} {states : List EscrowState} → Trace s states → length states ≤ rank s + 1
length-Trace (start e) = omega (arith, ap length e)
length-Trace (step {from} {earlier} to t h e) = omega (
  arith,
  ap length e,
  length-append earlier (to ∷ []),
  length-Trace t,
  rank-lt_of_allowed from to h,
)

pub rank-le : (s : EscrowState) → rank s ≤ 7
rank-le created = omega arith
rank-le _ = omega arith

-- A list of states in which `s` stands.
abbrev pub Visits : EscrowState → List EscrowState → Type 0
Visits s [] = ⊥
Visits s (x ∷ xs) = (x ≡ s) ⊎ Visits s xs

Visits-append_left :
    (s : EscrowState) (xs ys : List EscrowState) → Visits s xs → Visits s (xs ++ ys)
Visits-append_left s [] ys v = absurd v
Visits-append_left s (x ∷ xs) ys (inl e) = inl e
Visits-append_left s (x ∷ xs) ys (inr v) = inr (Visits-append_left s xs ys v)

Visits-last : (s : EscrowState) (xs : List EscrowState) → Visits s (xs ++ s ∷ [])
Visits-last s [] = inl refl
Visits-last s (x ∷ xs) = inr (Visits-last s xs)

-- What must have happened before an escrow can be in a state.
abbrev pub Paid : EscrowState → List EscrowState → Type 0
Paid created states = Unit
Paid cancelled states = Unit
Paid funded states = Visits funded states
Paid _ states = Visits funded states × Visits locked states

Paid-carry :
    (to : EscrowState) (earlier : List EscrowState)
    → Visits funded earlier × Visits locked earlier
    → Paid to (earlier ++ to ∷ [])
Paid-carry created earlier v = tt
Paid-carry cancelled earlier v = tt
Paid-carry funded earlier v = Visits-append_left funded earlier _ v.0
Paid-carry _ earlier v =
    (Visits-append_left funded earlier _ v.0, Visits-append_left locked earlier _ v.1)

Paid-step :
    (from to : EscrowState) (earlier : List EscrowState)
    → is_allowed from to ≡ true
    → Paid from earlier
    → Paid to (earlier ++ to ∷ [])
unfolding is_allowed
Paid-step created created earlier h p = tt
Paid-step created cancelled earlier h p = tt
Paid-step created funded earlier h p = Visits-last funded earlier
Paid-step funded locked earlier h p =
    (Visits-append_left funded earlier _ p, Visits-last locked earlier)
Paid-step funded cancelled earlier h p = tt
Paid-step created _ earlier h p = cc
Paid-step funded _ earlier h p = cc
Paid-step cancelled to earlier h p = cc
Paid-step _ to earlier h p = Paid-carry to earlier p

pub Paid-Trace : {s : EscrowState} {states : List EscrowState} → Trace s states → Paid s states
Paid-Trace (start e) = tt
Paid-Trace (step {from} {earlier} to t h e) = rw e (Paid-step from to earlier h (Paid-Trace t))
