-- ===== src/SpendGovernor/Caps.antt =====
-- src/agents/spend-governor.ts: what the governor lets an agent spend.
use mathlib.Core.List.{append_cancel_left}
use x402_agent_suite.Base.{
  ℕ, ◌+◌, ◌≤◌, ◌≡◌, refl, sym, ap, ◌∙◌, inl, inr, List, [], ◌∷◌, ◌++◌, Option, none, some, Text,
  text, text_eq, text_eq_iff, All, Bool-cases, Option-cases, and-eq-true, if◌then◌else◌, arith,
}
use x402_agent_suite.SpendGovernor.{
  SpendGovernorInput, SpendRow, Reason, day_key, is_row, sum_day, get_spent_today, record_spend,
  refusal, run_spend_governor,
}

pub record Call : Type 0 where
  pub day : Text
  pub input : SpendGovernorInput

sum_day-append :
    (agent_id key : Text) (rows : List SpendRow) (r : SpendRow)
    → sum_day agent_id key (rows ++ (r ∷ []))
      ≡ sum_day agent_id key rows + (if is_row agent_id key r then r.amount_usdc else 0)
unfolding sum_day
sum_day-append agent_id key [] r = elim (Bool-cases (is_row agent_id key r)) [
  | inl mine ↦ rw mine (omega arith)
  | inr other ↦ rw other refl
]
sum_day-append agent_id key (q ∷ rows) r = elim (Bool-cases (is_row agent_id key q)) [
  | inl mine ↦ rw mine (omega (arith, sum_day-append agent_id key rows r))
  | inr other ↦ rw other (sum_day-append agent_id key rows r)
]

module _ (host_of : Text → Option Text) where
  -- The governor refuses what would exceed the daily cap.
  refusal-cap :
      (input : SpendGovernorInput) (spent : ℕ)
      → refusal host_of input spent ≡ none
      → (input.estimated_cost_usdc ≤ input.policy.per_call_cap_usdc)
        × (spent + input.estimated_cost_usdc ≤ input.policy.daily_cap_usdc)
  unfolding refusal
  refusal-cap input spent h = ground (arith, h)

  abbrev pub step : Call → List SpendRow → List SpendRow
  step c rows = (run_spend_governor host_of c.day c.input rows).0

  unfoldable pub run : List Call → List SpendRow → List SpendRow
  unfolding run_spend_governor
  run [] rows = rows
  run (c ∷ cs) rows = run cs (step c rows)

  -- The calls of this agent on this day have a daily cap of at most `limit`.
  abbrev pub IsCapped : Text → Text → ℕ → Call → Type 0
  IsCapped day agent_id limit c =
      c.day ≡ day → c.input.agent_id ≡ agent_id → c.input.policy.daily_cap_usdc ≤ limit

  step-refused :
      (c : Call) (rows : List SpendRow) (reason : Reason)
      → refusal host_of c.input (get_spent_today c.day c.input.agent_id rows) ≡ some reason
      → step c rows ≡ rows
  unfolding run_spend_governor
  step-refused c rows reason refused = rw (step, refused) refl

  step-passed :
      (c : Call) (rows : List SpendRow)
      → refusal host_of c.input (get_spent_today c.day c.input.agent_id rows) ≡ none
      → step c rows ≡ record_spend c.day c.input.agent_id c.input.estimated_cost_usdc rows
  unfolding run_spend_governor
  step-passed c rows passed = rw (step, passed) refl

  step-cap :
      (day agent_id : Text) (limit : ℕ) (c : Call) (rows : List SpendRow)
      → IsCapped day agent_id limit c
      → get_spent_today day agent_id rows ≤ limit
      → get_spent_today day agent_id (step c rows) ≤ limit
  unfolding get_spent_today record_spend
  step-cap day agent_id limit c rows capped le =
      let spent = get_spent_today c.day c.input.agent_id rows in
      elim (Option-cases (refusal host_of c.input spent)) [
        | inr (reason, refused) ↦ rw (step-refused c rows reason refused) le
        | inl passed ↦
            let r : SpendRow = record {
              agent_id = c.input.agent_id;
              amount_usdc = c.input.estimated_cost_usdc;
              day_key = day_key c.input.agent_id c.day;
            } in
            rw (step-passed c rows passed, sum_day-append agent_id (day_key agent_id day) rows r)
              (elim (Bool-cases (is_row agent_id (day_key agent_id day) r)) [
                | inr other ↦ rw other (omega (arith, le))
                | inl mine ↦
                    let both =
                      (and-eq-true (text_eq r.agent_id agent_id)
                          (text_eq r.day_key (day_key agent_id day))).0
                        mine in
                    let agent = (text_eq_iff c.input.agent_id agent_id).0 both.0 in
                    let key = (text_eq_iff r.day_key (day_key agent_id day)).0 both.1 in
                    let same_day = append_cancel_left (text ":") c.day day (
                      append_cancel_left agent_id (text ":" ++ c.day) (text ":" ++ day)
                        (sym (ap (λ a. day_key a c.day) agent) ∙ key)) in
                    rw mine (
                      added day agent_id limit c rows capped agent same_day
                        (refusal-cap c.input spent passed).1)
              ])
      ]
    where
      added :
          (day agent_id : Text) (limit : ℕ) (c : Call) (rows : List SpendRow)
          → IsCapped day agent_id limit c
          → c.input.agent_id ≡ agent_id
          → c.day ≡ day
          → get_spent_today c.day c.input.agent_id rows + c.input.estimated_cost_usdc
            ≤ c.input.policy.daily_cap_usdc
          → get_spent_today day agent_id rows + c.input.estimated_cost_usdc ≤ limit
      added day agent_id limit c rows capped agent same h =
          let spent : get_spent_today c.day c.input.agent_id rows
              ≡ get_spent_today day agent_id rows =
            rw (agent, same) refl in
          omega (arith, h, spent, capped same agent)

  -- Whatever calls the governor answers, of any agents and with any policies: if the calls of an agent
  -- on a day all have a daily cap of at most the limit, and the agent's spending recorded for the day
  -- begins within it, the spending stays within it.
  pub spent_within_cap :
      (day agent_id : Text) (limit : ℕ) (cs : List Call) (rows : List SpendRow)
      → All (IsCapped day agent_id limit) cs
      → get_spent_today day agent_id rows ≤ limit
      → get_spent_today day agent_id (run cs rows) ≤ limit
  unfolding run
  spent_within_cap day agent_id limit [] rows h le = le
  spent_within_cap day agent_id limit (c ∷ cs) rows h le =
      spent_within_cap day agent_id limit cs (step c rows) h.1
        (step-cap day agent_id limit c rows h.0 le)
