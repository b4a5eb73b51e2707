-- ===== src/MeteredEscrow/Invariant.antt =====
-- src/agents/metered-escrow.ts: budgets and what is spent, over all histories of calls.
use mathlib.Core.Path.{subst}
use x402_agent_suite.Base.{
  ℕ, ◌+◌, ◌≤◌, ◌≡◌, refl, sym, ◌∙◌, inl, inr, false, List, [], ◌∷◌, ◌++◌, some, Text, find, All,
  to_fixed4, to_fixed4_idem, IsFixed4, ltb, some_inj, Option-cases, Bool-cases, arith,
}
use x402_agent_suite.MeteredEscrow.{
  Status, active, closed, MeteredSession, has_id, update_first, open_metered_session, set_spent,
  set_closed, charge_active, charge_found, charge_metered_session, close_found,
  close_metered_session,
}

-- What is spent is within the budget and a multiple of 10^-4 USDC.
pub record IsWithin (s : MeteredSession) : Type 0 where
  pub bounded : s.spent_usdc ≤ s.budget_usdc
  pub fixed : IsFixed4 s.spent_usdc

module _ (P : MeteredSession → Type 0) (id : Text) where
  pub find-All :
      (xs : List MeteredSession) (s : MeteredSession)
      → find (has_id id) xs ≡ some s
      → All P xs
      → P s
  find-All [] s h a = cc
  find-All (x ∷ xs) s h a = elim (Bool-cases (has_id id x)) [
    | inl hit ↦ subst P (some_inj (rw hit at h)) a.0
    | inr miss ↦ find-All xs s (rw miss at h) a.1
  ]

  update_first-All :
      (f : MeteredSession → MeteredSession) (xs : List MeteredSession)
      → ((s : MeteredSession) → find (has_id id) xs ≡ some s → P (f s))
      → All P xs
      → All P (update_first id f xs)
  unfolding update_first
  update_first-All f [] k a = tt
  update_first-All f (x ∷ xs) k a = elim (Bool-cases (has_id id x)) [
    | inl hit ↦ rw hit (k x (rw hit), a.1)
    | inr miss ↦ rw miss (a.0, update_first-All f xs (λ s e. k s (rw miss e)) a.1)
  ]

All-append_one {ℓ} :
    {A : Type ℓ} (P : A → Type 0) (xs : List A) (x : A) → All P xs → P x → All P (xs ++ x ∷ [])
All-append_one P [] x a p = (p, tt)
All-append_one P (y ∷ ys) x a p = (a.0, All-append_one P ys x a.1 p)

open-IsWithin :
    (random now wallet host : Text) (budget : ℕ) (sessions : List MeteredSession)
    → All IsWithin sessions
    → All IsWithin (open_metered_session random now wallet host budget sessions).0
unfolding open_metered_session to_fixed4
open-IsWithin random now wallet host budget sessions a =
    All-append_one IsWithin sessions _ a (record { bounded = omega arith; fixed = refl })

charge_active-IsWithin :
    (id : Text) (amount : ℕ) (s : MeteredSession) (sessions : List MeteredSession)
    → find (has_id id) sessions ≡ some s
    → All IsWithin sessions
    → All IsWithin (charge_active id amount s sessions).0
unfolding charge_active
charge_active-IsWithin id amount s sessions found a =
    elim (Bool-cases (ltb s.budget_usdc (to_fixed4 (s.spent_usdc + amount)))) [
      | inl over ↦ rw over a
      | inr fits ↦ rw fits (
          update_first-All IsWithin id _ sessions
            (λ t e. fits_budget t (some_inj (sym found ∙ e)) fits) a)
    ]
  where
    fits_budget :
        (t : MeteredSession)
        → s ≡ t
        → ltb s.budget_usdc (to_fixed4 (s.spent_usdc + amount)) ≡ false
        → IsWithin (set_spent (to_fixed4 (s.spent_usdc + amount)) t)
    fits_budget t same fits = record {
      bounded = subst (λ u. to_fixed4 (s.spent_usdc + amount) ≤ u.budget_usdc) same (ground arith);
      fixed = to_fixed4_idem (s.spent_usdc + amount);
    }

charge_found-IsWithin :
    (id : Text) (amount : ℕ) (st : Status) (s : MeteredSession) (sessions : List MeteredSession)
    → find (has_id id) sessions ≡ some s
    → All IsWithin sessions
    → All IsWithin (charge_found id amount st s sessions).0
charge_found-IsWithin id amount closed s sessions found a = a
charge_found-IsWithin id amount active s sessions found a =
    charge_active-IsWithin id amount s sessions found a

charge-IsWithin :
    (id : Text) (amount : ℕ) (sessions : List MeteredSession)
    → All IsWithin sessions
    → All IsWithin (charge_metered_session id amount sessions).0
unfolding charge_metered_session
charge-IsWithin id amount sessions a = elim (Option-cases (find (has_id id) sessions)) [
  | inl e ↦ rw (e, charge_metered_session) a
  | inr (s, e) ↦
      rw (e, charge_metered_session) (charge_found-IsWithin id amount s.status s sessions e a)
]

set_closed-IsWithin : (now : Text) (s : MeteredSession) → IsWithin s → IsWithin (set_closed now s)
set_closed-IsWithin now s w = record { bounded = w.bounded; fixed = w.fixed }

close_found-IsWithin :
    (now id : Text) (st : Status) (s : MeteredSession) (sessions : List MeteredSession)
    → All IsWithin sessions
    → All IsWithin (close_found now id st s sessions).0
close_found-IsWithin now id closed s sessions a = a
close_found-IsWithin now id active s sessions a =
    update_first-All IsWithin id (set_closed now) sessions
      (λ t e. set_closed-IsWithin now t (find-All IsWithin id sessions t e a)) a

close-IsWithin :
    (now id : Text) (sessions : List MeteredSession)
    → All IsWithin sessions
    → All IsWithin (close_metered_session now id sessions).0
unfolding close_metered_session
close-IsWithin now id sessions a = elim (Option-cases (find (has_id id) sessions)) [
  | inl e ↦ rw (e, close_metered_session) a
  | inr (s, e) ↦ rw (e, close_metered_session) (close_found-IsWithin now id s.status s sessions a)
]

pub data Call : Type 0 where
  opens : (random now wallet host : Text) (budget : ℕ) → Call
  charges : (id : Text) (amount : ℕ) → Call
  closes : (now id : Text) → Call

unfoldable pub perform : Call → List MeteredSession → List MeteredSession
unfolding open_metered_session charge_metered_session close_metered_session
perform (opens random now wallet host budget) sessions =
    (open_metered_session random now wallet host budget sessions).0
perform (charges id amount) sessions = (charge_metered_session id amount sessions).0
perform (closes now id) sessions = (close_metered_session now id sessions).0

unfoldable pub run : List Call → List MeteredSession → List MeteredSession
unfolding perform
run [] sessions = sessions
run (c ∷ cs) sessions = run cs (perform c sessions)

pub perform-IsWithin :
    (c : Call) (sessions : List MeteredSession)
    → All IsWithin sessions
    → All IsWithin (perform c sessions)
unfolding perform
perform-IsWithin (opens random now wallet host budget) sessions a =
    open-IsWithin random now wallet host budget sessions a
perform-IsWithin (charges id amount) sessions a = charge-IsWithin id amount sessions a
perform-IsWithin (closes now id) sessions a = close-IsWithin now id sessions a

run-All-IsWithin :
    (cs : List Call) (sessions : List MeteredSession)
    → All IsWithin sessions
    → All IsWithin (run cs sessions)
unfolding run
run-All-IsWithin [] sessions a = a
run-All-IsWithin (c ∷ cs) sessions a =
    run-All-IsWithin cs (perform c sessions) (perform-IsWithin c sessions a)

-- After any calls on an empty store, every session has spent at most its budget, and what it has
-- spent is a multiple of 10^-4 USDC.
pub run-IsWithin : (cs : List Call) → All IsWithin (run cs [])
run-IsWithin cs = run-All-IsWithin cs [] tt
