-- ===== src/MeteredEscrow/Settlement.antt =====
-- src/agents/metered-escrow.ts: what a charge takes and what a close pays out.
use x402_agent_suite.Base.{
  ℕ, ◌+◌, ◌≤◌, ◌<◌, ◌≡◌, refl, sym, ap, ◌∙◌, inl, inr, List, [], ◌∷◌, some, Text, find, All,
  to_fixed4, IsFixed4, le→ltb, lt→ltb, IsFixed4-add, fixed4_add_dust, some_inj, Bool-cases, arith,
}
use x402_agent_suite.MeteredEscrow.{
  Status, active, closed, MeteredSession, MeteredResult, already_closed, insufficient_funds,
  charged, closed_before, closing, has_id, update_first, set_spent, set_closed, charge_active,
  charge_found, charge_metered_session, refund_of, close_found, close_metered_session,
}
use x402_agent_suite.MeteredEscrow.Invariant.{IsWithin, find-All}

find-update_first :
    (id : Text) (f : MeteredSession → MeteredSession) (xs : List MeteredSession)
    (s : MeteredSession)
    → ((t : MeteredSession) → has_id id (f t) ≡ has_id id t)
    → find (has_id id) xs ≡ some s
    → find (has_id id) (update_first id f xs) ≡ some (f s)
unfolding update_first
find-update_first id f [] s k h = cc
find-update_first id f (x ∷ xs) s k h = elim (Bool-cases (has_id id x)) [
  | inl hit ↦ rw hit (rw (k x, hit) (ap (λ t. some (f t)) (some_inj (rw hit at h))))
  | inr miss ↦ rw miss (rw miss (find-update_first id f xs s k (rw miss at h)))
]

-- The two amounts of a settlement: what goes back to the buyer and what the seller gets.
abbrev pub Pays : MeteredResult → ℕ → ℕ → Type 0
Pays (closed_before s r d) refund settled = (r ≡ refund) × (d ≡ settled)
Pays (closing s r d) refund settled = (r ≡ refund) × (d ≡ settled)
Pays _ refund settled = ⊥

refund_lem :
    (s : MeteredSession) → IsWithin s → refund_of s + s.spent_usdc ≡ to_fixed4 s.budget_usdc
unfolding refund_of to_fixed4
refund_lem s w = omega (arith, w.bounded, w.fixed)

close_found-Pays :
    (now id : Text) (st : Status) (s : MeteredSession) (sessions : List MeteredSession)
    → Pays (close_found now id st s sessions).1 (refund_of s) s.spent_usdc
unfolding refund_of
close_found-Pays now id closed s sessions = (refl, refl)
close_found-Pays now id active s sessions = (refl, refl)

-- Closing a session, open or closed, pays the seller what was spent and the buyer the rest: the two
-- amounts together are the budget, rounded to 10^-4 USDC.
pub close_conserves :
    (now id : Text) (sessions : List MeteredSession) (s : MeteredSession)
    → All IsWithin sessions
    → find (has_id id) sessions ≡ some s
    → (refund : ℕ) × Pays (close_metered_session now id sessions).1 refund s.spent_usdc
      × (refund + s.spent_usdc ≡ to_fixed4 s.budget_usdc)
unfolding close_metered_session
close_conserves now id sessions s a found = (
  refund_of s,
  rw (found, close_metered_session) (close_found-Pays now id s.status s sessions),
  refund_lem s (find-All IsWithin id sessions s found a),
)

-- The array and the object after a close.
abbrev close_result : Text → Status → MeteredSession → MeteredSession
close_result now closed s = s
close_result now active s = set_closed now s

close_found-find :
    (now id : Text) (st : Status) (s : MeteredSession) (sessions : List MeteredSession)
    → find (has_id id) sessions ≡ some s
    → find (has_id id) (close_found now id st s sessions).0 ≡ some (close_result now st s)
close_found-find now id closed s sessions found = found
close_found-find now id active s sessions found =
    find-update_first id (set_closed now) sessions s (λ t. refl) found

close_result-closed :
    (now : Text) (st : Status) (s : MeteredSession)
    → s.status ≡ st
    → (close_result now st s).status ≡ closed
close_result-closed now closed s h = h
close_result-closed now active s h = refl

close-find :
    (now id : Text) (sessions : List MeteredSession) (s : MeteredSession)
    → find (has_id id) sessions ≡ some s
    → find (has_id id) (close_metered_session now id sessions).0
      ≡ some (close_result now s.status s)
unfolding close_metered_session
close-find now id sessions s found =
    rw (found, close_metered_session) (close_found-find now id s.status s sessions found)

close_result-spent :
    (now : Text) (st : Status) (s : MeteredSession)
    → (close_result now st s).spent_usdc ≡ s.spent_usdc
close_result-spent now closed s = refl
close_result-spent now active s = refl

module _ (id : Text) (sessions : List MeteredSession) (s : MeteredSession)
    (found : find (has_id id) sessions ≡ some s) where
  charge_of_closed :
      (amount : ℕ)
      → s.status ≡ closed
      → charge_metered_session id amount sessions ≡ (sessions, already_closed s)
  unfolding charge_metered_session
  charge_of_closed amount h = rw (found, charge_metered_session) (rw (h, charge_found))

  close_of_closed :
      (now : Text)
      → s.status ≡ closed
      → close_metered_session now id sessions
        ≡ (sessions, closed_before s (refund_of s) s.spent_usdc)
  unfolding close_metered_session
  close_of_closed now h = rw (found, close_metered_session) (rw (h, close_found))

  charge_of_active :
      (amount : ℕ)
      → s.status ≡ active
      → charge_metered_session id amount sessions ≡ charge_active id amount s sessions
  unfolding charge_metered_session
  charge_of_active amount h = rw (found, charge_metered_session) (rw (h, charge_found))

-- Once a known session has been closed, every further charge is refused and a further close reports
-- the same amounts again; both leave the store as it is.
pub close_final :
    (now later id : Text) (amount : ℕ) (sessions : List MeteredSession) (s : MeteredSession)
    → find (has_id id) sessions ≡ some s
    → let after = (close_metered_session now id sessions).0 in
      (t : MeteredSession) × (charge_metered_session id amount after ≡ (after, already_closed t))
      × (close_metered_session later id after ≡ (after, closed_before t (refund_of t) t.spent_usdc))
      × (t.spent_usdc ≡ s.spent_usdc)
close_final now later id amount sessions s found =
    let kept = close-find now id sessions s found in
    let shut = close_result-closed now s.status s refl in
    (
      close_result now s.status s,
      charge_of_closed id _ _ kept amount shut,
      close_of_closed id _ _ kept later shut,
      close_result-spent now s.status s,
    )

-- A charge of a whole number of 10^-4 USDC against an open session is exact: it succeeds and adds the
-- amount when the budget covers it, and otherwise it changes nothing and is refused.
pub charge_exact :
    (id : Text) (amount : ℕ) (sessions : List MeteredSession) (s : MeteredSession)
    → find (has_id id) sessions ≡ some s
    → s.status ≡ active
    → IsWithin s
    → IsFixed4 amount
    → (s.spent_usdc + amount ≤ s.budget_usdc
        → charge_metered_session id amount sessions ≡ (
          update_first id (set_spent (s.spent_usdc + amount)) sessions,
          charged (set_spent (s.spent_usdc + amount) s),
        ))
      × (s.budget_usdc < s.spent_usdc + amount
          → charge_metered_session id amount sessions
            ≡ (sessions, insufficient_funds (s.spent_usdc + amount) s))
unfolding charge_active
charge_exact id amount sessions s found open_status w fixed =
    let exact : to_fixed4 (s.spent_usdc + amount) ≡ s.spent_usdc + amount =
      IsFixed4-add _ _ w.fixed fixed in
    let enter = charge_of_active id sessions s found amount open_status in
    (
      λ fits. enter ∙ rw exact (rw (le→ltb _ _ fits)),
      λ over. enter ∙ rw exact (rw (lt→ltb _ _ over)),
    )

set_spent_same :
    (id : Text) (sessions : List MeteredSession) (s : MeteredSession)
    → find (has_id id) sessions ≡ some s
    → update_first id (set_spent s.spent_usdc) sessions ≡ sessions
unfolding update_first
set_spent_same id [] s h = cc
set_spent_same id (x ∷ xs) s h = elim (Bool-cases (has_id id x)) [
  | inl hit ↦
      rw hit
        (ap (λ (t : MeteredSession). set_spent t.spent_usdc x ∷ xs) (sym (some_inj (rw hit at h))))
  | inr miss ↦ rw miss (ap (λ l. x ∷ l) (set_spent_same id xs s (rw miss at h)))
]

-- A charge below 0.00005 USDC against an open session always succeeds and takes nothing: the store
-- is as it was, so such charges can be repeated for ever on any budget.
pub charge_dust_free :
    (id : Text) (amount : ℕ) (sessions : List MeteredSession) (s : MeteredSession)
    → find (has_id id) sessions ≡ some s
    → s.status ≡ active
    → IsWithin s
    → amount < 50
    → charge_metered_session id amount sessions ≡ (sessions, charged s)
unfolding charge_active
charge_dust_free id amount sessions s found open_status w dust =
    charge_of_active id sessions s found amount open_status
    ∙ rw (fixed4_add_dust s.spent_usdc amount w.fixed dust)
        (rw (le→ltb _ _ w.bounded) (ap (λ l. (l, charged s)) (set_spent_same id sessions s found)))
