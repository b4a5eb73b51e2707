-- ===== src/EscrowFsm/Histories.antt =====
-- src/protocol/escrow-fsm.ts: any order of calls and starts, as steps from the empty store.
use mathlib.Core.Path.{subst}
use x402_agent_suite.Base.{
  ◌≤◌, ◌≡◌, refl, sym, ap, ◌∙◌, ◌⊎◌, inl, inr, true, false, List, [], Option, none, some, Text,
  text_eq, text_eq_iff, lookup, lookup-insert, lookup-insert_fresh, length, Bool-cases,
  Option-cases, arith,
}
use x402_agent_suite.EscrowUnified.{log_of}
use x402_agent_suite.EscrowFsm.{
  EscrowState, funded, locked, settled, refunded, cancelled, is_allowed, ProtocolEscrow,
  CreateInput, System, Clock, create_protocol_escrow, apply_transition, transition_escrow,
  probe_escrow_id, seeded, seed_escrow,
}
use x402_agent_suite.EscrowFsm.Lifecycle.{length-Trace, rank-le, Visits, Paid, Paid-Trace}
use x402_agent_suite.EscrowFsm.Invariant.{
  IsConsistent, states_of, create-IsConsistent, seed-IsConsistent, transition-IsConsistent,
  transition_cases,
}

abbrev pub empty_system : System
empty_system = record { store = []; db = record { escrows = []; transitions = [] } }

abbrev pub IsFinal : EscrowState → Type 0
IsFinal s = (s ≡ settled) ⊎ (s ≡ refunded) ⊎ (s ≡ cancelled)

not_allowed_of_IsFinal : (s to : EscrowState) → IsFinal s → is_allowed s to ≡ false
unfolding is_allowed
not_allowed_of_IsFinal s to (inl h) = rw h
not_allowed_of_IsFinal s to (inr (inl h)) = rw h
not_allowed_of_IsFinal s to (inr (inr h)) = rw h

Paid-final :
    (s : EscrowState) (states : List EscrowState)
    → (s ≡ settled) ⊎ (s ≡ refunded)
    → Paid s states
    → Visits funded states × Visits locked states
Paid-final s states (inl e) p = subst (λ x. Paid x states) e p
Paid-final s states (inr e) p = subst (λ x. Paid x states) e p

module _ (hmac_sign : Text → Text) where
  -- One call. The id of a new escrow is not in use: `randomUUID()`.
  pub data Step : System → System → Type 0 where
    create :
        (now : Clock) (id : Text) (input : CreateInput) (s : System) {t : System}
        → lookup id s.store ≡ none
        → t ≡ (create_protocol_escrow hmac_sign now id input s).0
        → Step s t
    transition :
        (now : Clock) (id : Text) (next : EscrowState) (memo : Option Text) (s : System)
        {t : System}
        → t ≡ (transition_escrow hmac_sign now id next memo s).0
        → Step s t
    -- The server starts.
    seed :
        (now : Clock) (input : CreateInput) (s : System) {t : System}
        → t ≡ seed_escrow hmac_sign now input s
        → Step s t

  pub data Reach (s : System) : System → Type 0 where
    here : Reach s s
    then_step : {t u : System} → Reach s t → Step t u → Reach s u

  empty-IsConsistent : IsConsistent hmac_sign empty_system
  unfolding lookup log_of
  empty-IsConsistent = record { sound = λ id e h. cc; no_row = λ id h. refl; no_log = λ id h. refl }

  Step-IsConsistent :
      {s t : System} → Step s t → IsConsistent hmac_sign s → IsConsistent hmac_sign t
  Step-IsConsistent (create now id input s fresh e) c =
      rw e (create-IsConsistent hmac_sign now id input s c fresh)
  Step-IsConsistent (transition now id next memo s e) c =
      rw e (transition-IsConsistent hmac_sign now id next memo s c)
  Step-IsConsistent (seed now input s e) c = rw e (seed-IsConsistent hmac_sign now input s c)

  -- After any calls and starts of the server, each stored escrow carries an HMAC of its id, state and time,
  -- its history is an allowed path from CREATED to its state, the log of transitions is that path, and its
  -- row in the table `escrows` has its state, proof and amount; only the escrow that the start seeds for the
  -- verifier's probe has no row as long as it is CREATED.
  pub Reach-IsConsistent : {t : System} → Reach empty_system t → IsConsistent hmac_sign t
  Reach-IsConsistent here = empty-IsConsistent
  Reach-IsConsistent (then_step r st) = Step-IsConsistent st (Reach-IsConsistent r)

  -- After any calls, a stored escrow has at most eight entries in its history; one that is SETTLED
  -- or REFUNDED has been FUNDED and LOCKED.
  pub Reach-Paid :
      {t : System}
      → Reach empty_system t
      → (id : Text) (e : ProtocolEscrow) → lookup id t.store ≡ some e
      → (length (states_of e.history) ≤ 8)
        × ((e.state ≡ settled) ⊎ (e.state ≡ refunded)
            → Visits funded (states_of e.history) × Visits locked (states_of e.history))
  Reach-Paid r id e h =
      let trace = ((Reach-IsConsistent r).sound id e h).trace in
      (
        omega (arith, length-Trace trace, rank-le e.state),
        λ final. Paid-final e.state _ final (Paid-Trace trace),
      )

  -- Another escrow's write, and a refused one, leave a final escrow alone.
  final-transition :
      (now : Clock) (j : Text) (next : EscrowState) (memo : Option Text) (s : System) (id : Text)
      (e : ProtocolEscrow)
      → IsFinal e.state
      → lookup id s.store ≡ some e
      → lookup id (transition_escrow hmac_sign now j next memo s).0.store ≡ some e
  unfolding apply_transition
  final-transition now j next memo s id e f h =
      transition_cases hmac_sign (λ r. lookup id r.0.store ≡ some e) now j next memo s (λ _. h)
        (λ _ _ _. h)
        λ x found ok. elim (Bool-cases (text_eq j id)) [
          | inl same ↦ absurd (clash x found ok ((text_eq_iff j id).0 same))
          | inr other ↦ lookup-insert j id _ s.store ∙ (rw other h)
        ]
    where
      clash :
          (x : ProtocolEscrow)
          → lookup j s.store ≡ some x
          → is_allowed x.state next ≡ true
          → j ≡ id
          → ⊥
      clash x found ok same =
          let one : some x ≡ some e = sym found ∙ ap (λ k. lookup k s.store) same ∙ h in
          let state : e.state ≡ x.state = ground (arith, one) in
          ground (arith, ok, not_allowed_of_IsFinal x.state next (subst IsFinal state f))

  final-seed :
      (now : Clock) (input : CreateInput) (s : System) (id : Text) (e : ProtocolEscrow)
      → lookup id s.store ≡ some e
      → lookup id (seed_escrow hmac_sign now input s).store ≡ some e
  unfolding seed_escrow
  final-seed now input s id e h = elim (Option-cases (lookup probe_escrow_id s.store)) [
    | inr (x, there) ↦ rw (there, seed_escrow) h
    | inl fresh ↦
        rw (fresh, seed_escrow)
          (lookup-insert_fresh probe_escrow_id id (seeded hmac_sign now input) e s.store fresh h)
  ]

  final-Step :
      {s t : System}
      → Step s t
      → (id : Text) (e : ProtocolEscrow) → IsFinal e.state
      → lookup id s.store ≡ some e
      → lookup id t.store ≡ some e
  unfolding create_protocol_escrow
  final-Step (create now j input s fresh e') id e f h =
      rw e' (lookup-insert_fresh j id _ e s.store fresh h)
  final-Step (seed now input s e') id e f h = rw e' (final-seed now input s id e h)
  final-Step (transition now j next memo s e') id e f h =
      rw e' (final-transition now j next memo s id e f h)

  -- A settled, refunded or cancelled escrow never changes again, whatever is called.
  pub final-Reach :
      {s t : System}
      → Reach s t
      → (id : Text) (e : ProtocolEscrow) → IsFinal e.state
      → lookup id s.store ≡ some e
      → lookup id t.store ≡ some e
  final-Reach here id e f h = h
  final-Reach (then_step r st) id e f h = final-Step st id e f (final-Reach r id e f h)
