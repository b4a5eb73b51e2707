-- ===== src/EscrowFsm/Invariant.antt =====
-- src/protocol/escrow-fsm.ts and src/lib/escrow-unified.ts: what holds of every stored escrow, its
-- row and its log, over all histories of calls.
use mathlib.Core.List.{append-nil}
use mathlib.Core.Path.{subst}
use x402_agent_suite.Base.{
  ◌≡◌, refl, sym, ap, ◌∙◌, ◌⊎◌, inl, inr, true, false, List, [], ◌∷◌, ◌++◌, Option, none, some,
  Text, text_eq, text_eq_refl, lookup, insert, lookup-insert_self, lookup-insert-some,
  lookup-insert-none, length, Bool-cases, Option-cases,
}
use x402_agent_suite.EscrowUnified.{
  protocol_fsm, EscrowRow, Tables, lookup-upsert_other, lookup-upsert_self,
  record_escrow_transition, merged, protocol_fsm_history, log_of, log_of-append,
}
use x402_agent_suite.EscrowFsm.{
  EscrowState, created, state_name, is_allowed, HistoryEntry, ProtocolEscrow, CreateInput, System,
  Clock, TransitionResult, moved, not_found, invalid_transition, proof_payload, new_escrow,
  move_escrow, row_of, probe_escrow_id, seeded, seed_escrow, create_protocol_escrow,
  apply_transition, transition_escrow,
}
use x402_agent_suite.EscrowFsm.Lifecycle.{Trace, start, step}

-- The (from, to) pairs of neighbours, by name.
abbrev pub pairs : List EscrowState → List (Text × Text)
pairs [] = []
pairs (s ∷ []) = []
pairs (s ∷ t ∷ states) = (state_name s, state_name t) ∷ pairs (t ∷ states)

abbrev pub states_of : List HistoryEntry → List EscrowState
states_of [] = []
states_of (h ∷ hs) = h.state ∷ states_of hs

states_of-append :
    (hs : List HistoryEntry) (h : HistoryEntry)
    → states_of (hs ++ h ∷ []) ≡ states_of hs ++ h.state ∷ []
states_of-append [] h = refl
states_of-append (x ∷ hs) h = ap (λ s. x.state ∷ s) (states_of-append hs h)

-- The last state of a trace is the state that it belongs to.
abbrev EndsIn : EscrowState → List EscrowState → Type 0
EndsIn s states = (earlier : List EscrowState) × (states ≡ earlier ++ s ∷ [])

Trace-EndsIn : {s : EscrowState} {states : List EscrowState} → Trace s states → EndsIn s states
Trace-EndsIn (start e) = ([], e)
Trace-EndsIn (step {from} {earlier} to t h e) = (earlier, e)

pairs-append :
    (earlier : List EscrowState) (s t : EscrowState)
    → pairs ((earlier ++ s ∷ []) ++ t ∷ [])
      ≡ pairs (earlier ++ s ∷ []) ++ (state_name s, state_name t) ∷ []
pairs-append [] s t = refl
pairs-append (x ∷ []) s t = refl
pairs-append (x ∷ y ∷ earlier) s t =
    ap (λ r. (state_name x, state_name y) ∷ r) (pairs-append (y ∷ earlier) s t)

pairs-step :
    (s t : EscrowState) (states : List EscrowState)
    → EndsIn s states
    → pairs (states ++ t ∷ []) ≡ pairs states ++ (state_name s, state_name t) ∷ []
pairs-step s t states (earlier, e) = rw e (pairs-append earlier s t)

log_of-logged :
    (id from to : Text) (memo proof : Option Text) (db : Tables)
    → log_of id (record_escrow_transition id from to memo proof db).transitions
      ≡ log_of id db.transitions ++ (from, to) ∷ []
unfolding record_escrow_transition log_of
log_of-logged id from to memo proof db = rw (log_of-append id db.transitions, text_eq_refl id)

log_of-logged_other :
    (id j from to : Text) (memo proof : Option Text) (db : Tables)
    → text_eq id j ≡ false
    → log_of j (record_escrow_transition id from to memo proof db).transitions
      ≡ log_of j db.transitions
unfolding record_escrow_transition log_of
log_of-logged_other id j from to memo proof db other =
    rw (log_of-append j db.transitions, other, append-nil)

module _ (hmac_sign : Text → Text) where
  -- The row in `escrows` agrees with the escrow `e` stored under `id`.
  abbrev pub IsMirrored : Text → ProtocolEscrow → Tables → Type 0
  IsMirrored id e db =
      (row : EscrowRow) × (lookup id db.escrows ≡ some row)
      × (row.state ≡ state_name e.state)
      × (row.state_proof ≡ e.state_proof)
      × (row.amount_usdc ≡ e.amount_usdc)

  -- The seeded escrow, before its first transition.
  abbrev pub IsUnmoved : Text → ProtocolEscrow → Tables → Type 0
  IsUnmoved id e db = (id ≡ probe_escrow_id) × (e.state ≡ created) × (lookup id db.escrows ≡ none)

  -- What holds of the escrow `e` stored under `id`.
  pub record IsSound (id : Text) (e : ProtocolEscrow) (db : Tables) : Type 0 where
    pub trace : Trace e.state (states_of e.history)
    pub proof : e.state_proof ≡ hmac_sign (proof_payload id e.state e.updated_at)
    pub logged : log_of id db.transitions ≡ pairs (states_of e.history)
    pub mirror : IsUnmoved id e db ⊎ IsMirrored id e db

  -- Every stored escrow is sound, and an id that is not stored has left nothing in the database.
  pub record IsConsistent (s : System) : Type 0 where
    pub sound : (id : Text) (e : ProtocolEscrow) → lookup id s.store ≡ some e → IsSound id e s.db
    pub no_row : (id : Text) → lookup id s.store ≡ none → lookup id s.db.escrows ≡ none
    pub no_log : (id : Text) → lookup id s.store ≡ none → log_of id s.db.transitions ≡ []

  -- Soundness reads only the log and the row of its own id.
  IsSound-frame :
      (id : Text) (e : ProtocolEscrow) (db db' : Tables)
      → log_of id db'.transitions ≡ log_of id db.transitions
      → lookup id db'.escrows ≡ lookup id db.escrows
      → IsSound id e db
      → IsSound id e db'
  IsSound-frame id e db db' log row v = record {
    trace = v.trace;
    proof = v.proof;
    logged = log ∙ v.logged;
    mirror = elim v.mirror [
      | inl (probe, unmoved, none_there) ↦ inl (probe, unmoved, row ∙ none_there)
      | inr (r, there, state, proof, amount) ↦ inr (r, row ∙ there, state, proof, amount)
    ];
  }

  create-IsSound :
      (now : Clock) (id : Text) (input : CreateInput) (s : System)
      → IsConsistent s
      → lookup id s.store ≡ none
      → let (s', e) = create_protocol_escrow hmac_sign now id input s in IsSound id e s'.db
  unfolding create_protocol_escrow
  create-IsSound now id input s c fresh = record {
    trace = start refl;
    proof = refl;
    logged = c.no_log id fresh;
    mirror = inr (
      row_of now.unix (new_escrow hmac_sign now id input) protocol_fsm,
      rw (c.no_row id fresh) (lookup-insert_self id _ _),
      refl,
      refl,
      refl,
    );
  }

  insert-IsConsistent :
      (id : Text) (e : ProtocolEscrow) (s : System) (db : Tables)
      → IsConsistent s
      → IsSound id e db
      → ((j : Text) → text_eq id j ≡ false → log_of j db.transitions ≡ log_of j s.db.transitions)
      → ((j : Text) → text_eq id j ≡ false → lookup j db.escrows ≡ lookup j s.db.escrows)
      → IsConsistent (record { store = insert id e s.store; db = db })
  insert-IsConsistent id e s db c v log row = record {
    sound = λ j f h. elim (lookup-insert-some id j e f s.store h) [
      | inl (same, found) ↦ subst (λ k. IsSound k f db) same (subst (λ g. IsSound id g db) found v)
      | inr (other, old) ↦ IsSound-frame j f s.db db (log j other) (row j other) (c.sound j f old)
    ];
    no_row = λ j h.
        let (other, old) = lookup-insert-none id j e s.store h in row j other ∙ c.no_row j old;
    no_log = λ j h.
        let (other, old) = lookup-insert-none id j e s.store h in log j other ∙ c.no_log j old;
  }

  -- Creating an escrow under an id that is not in use keeps every record consistent.
  pub create-IsConsistent :
      (now : Clock) (id : Text) (input : CreateInput) (s : System)
      → IsConsistent s
      → lookup id s.store ≡ none
      → IsConsistent (create_protocol_escrow hmac_sign now id input s).0
  unfolding create_protocol_escrow
  create-IsConsistent now id input s c fresh =
      insert-IsConsistent id (new_escrow hmac_sign now id input) s _ c
        (create-IsSound now id input s c fresh) (λ j other. refl)
        (λ j other. lookup-upsert_other now.unix id j _ s.db other)

  -- Seeding the probe's escrow keeps every record consistent.
  pub seed-IsConsistent :
      (now : Clock) (input : CreateInput) (s : System)
      → IsConsistent s
      → IsConsistent (seed_escrow hmac_sign now input s)
  unfolding seed_escrow
  seed-IsConsistent now input s c = elim (Option-cases (lookup probe_escrow_id s.store)) [
    | inr (e, there) ↦ rw (there, seed_escrow) c
    | inl fresh ↦
        rw (fresh, seed_escrow)
          (insert-IsConsistent probe_escrow_id (seeded hmac_sign now input) s s.db c
            (record {
              trace = start refl;
              proof = refl;
              logged = c.no_log probe_escrow_id fresh;
              mirror = inl (refl, refl, c.no_row probe_escrow_id fresh);
            })
            (λ j other. refl) (λ j other. refl))
  ]

  transition-IsSound :
      (now : Clock) (id : Text) (e : ProtocolEscrow) (next : EscrowState) (memo : Option Text)
      (s : System)
      → IsSound id e s.db
      → is_allowed e.state next ≡ true
      → IsSound id
          (move_escrow hmac_sign now id e next memo)
          (apply_transition hmac_sign now id e next memo s).db
  unfolding apply_transition
  transition-IsSound now id e next memo s v h = record {
    trace = step next v.trace h (states_of-append e.history _);
    proof = refl;
    logged =
        log_of-logged id (state_name e.state) (state_name next) memo (some e'.state_proof) s.db
        ∙ ap (λ l. l ++ (state_name e.state, state_name next) ∷ []) v.logged
        ∙ sym (
            ap pairs (states_of-append e.history _)
            ∙ pairs-step e.state next (states_of e.history) (Trace-EndsIn v.trace));
    mirror = inr (elim v.mirror [
      | inl (probe, unmoved, none_there) ↦ (
        merged now.unix new_row none,
        lookup-upsert_self now.unix id new_row s.db
            ∙ ap (λ r. some (merged now.unix new_row r)) none_there,
        refl,
        refl,
        refl,
      )
      | inr (row, there, same_state, same_proof, same_amount) ↦ (
        merged now.unix new_row (some row),
        lookup-upsert_self now.unix id new_row s.db
            ∙ ap (λ r. some (merged now.unix new_row r)) there,
        refl,
        refl,
        same_amount,
      )
    ]);
  }
    where
      e' : ProtocolEscrow
      e' = move_escrow hmac_sign now id e next memo

      new_row : EscrowRow
      new_row = row_of now.unix e' (protocol_fsm_history (length e'.history))

  -- The three ways in which a request for a transition ends.
  pub transition_cases {ℓ} :
      (P : System × TransitionResult → Type ℓ) (now : Clock) (id : Text) (next : EscrowState)
      (memo : Option Text) (s : System)
      → (lookup id s.store ≡ none → P (s, not_found))
      → ((e : ProtocolEscrow)
          → lookup id s.store ≡ some e
          → is_allowed e.state next ≡ false
          → P (s, invalid_transition e.state next))
      → ((e : ProtocolEscrow)
          → lookup id s.store ≡ some e
          → is_allowed e.state next ≡ true
          → P (
            apply_transition hmac_sign now id e next memo s,
            moved (move_escrow hmac_sign now id e next memo),
          ))
      → P (transition_escrow hmac_sign now id next memo s)
  unfolding transition_escrow
  transition_cases P now id next memo s missing refused done =
      elim (Option-cases (lookup id s.store)) [
        | inl e ↦ rw (e, transition_escrow) (missing e)
        | inr (x, e) ↦
            rw (e, transition_escrow)
              (elim (Bool-cases (is_allowed x.state next)) [
                | inl yes_way ↦ rw yes_way (done x e yes_way)
                | inr no_way ↦ rw no_way (refused x e no_way)
              ])
      ]

  apply-IsConsistent :
      (now : Clock) (id : Text) (e : ProtocolEscrow) (next : EscrowState) (memo : Option Text)
      (s : System)
      → IsConsistent s
      → lookup id s.store ≡ some e
      → is_allowed e.state next ≡ true
      → IsConsistent (apply_transition hmac_sign now id e next memo s)
  unfolding apply_transition
  apply-IsConsistent now id e next memo s c found ok =
      insert-IsConsistent id e' s _ c
        (transition-IsSound now id e next memo s (c.sound id e found) ok)
        (λ j other.
          log_of-logged_other id j (state_name e.state) (state_name next) memo (some e'.state_proof)
            s.db other)
        (λ j other.
          lookup-upsert_other now.unix id j
            (row_of now.unix e' (protocol_fsm_history (length e'.history))) s.db other)
    where
      e' : ProtocolEscrow
      e' = move_escrow hmac_sign now id e next memo

  -- A request for a transition keeps every record consistent, on every branch.
  pub transition-IsConsistent :
      (now : Clock) (id : Text) (next : EscrowState) (memo : Option Text) (s : System)
      → IsConsistent s
      → IsConsistent (transition_escrow hmac_sign now id next memo s).0
  transition-IsConsistent now id next memo s c =
      transition_cases (λ r. IsConsistent r.0) now id next memo s (λ e. c) (λ e found no_way. c)
        (λ e found ok. apply-IsConsistent now id e next memo s c found ok)
