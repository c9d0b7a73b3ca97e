-- ===== src/Backtest/Limits.antt =====
-- The limit of entries a day holds over a whole replay.
use daytradebot.Base.{
  ◌≤◌, ◌≡◌, refl, ◌⊎◌, inl, inr, none, some, List, [], ◌∷◌, ◌++◌, map, arith, Bool-cases,
  Option-cases, List-cases,
}
use daytradebot.Decimal.{Decimal}
use daytradebot.Domain.Market.{Candle, MarketContext}
use daytradebot.Domain.Signals.{Signal, SignalResult, nothing, signal, refused, RejectionReason}
use daytradebot.Risk.{RiskState, update_state}
use daytradebot.Risk.Approval.{validate-DayIsOpen}
use daytradebot.Broker.{get_position}
use daytradebot.Execution.{
  ExecutionResult, executed, rejected_by_risk, rejected_by_broker, process_signal, sync_risk_state,
}
use daytradebot.Execution.Safety.{process_signal-executed}
use daytradebot.Context.{analyze, default_config}
use daytradebot.Backtest.Engine.{
  Setup, BacktestEngine, simulated, roll_day, feed, watch_position, evaluate_time_exit,
  is_last_bar_of_session, cancel_pending_entry, close_session, flatten_session, record_equity,
  sync_closed_trades, act_on, consider, settle, step, run_from,
}

ExecutionResult-cases :
    {I D : Type 0} (r : ExecutionResult I D)
    → ((id : I) × ((size : D) × ((risk : D) × (r ≡ executed id size risk))))
      ⊎ (((reason : RejectionReason) × (r ≡ rejected_by_risk reason)) ⊎ (r ≡ rejected_by_broker))
ExecutionResult-cases (executed id size risk) = inl (id, (size, (risk, refl)))
ExecutionResult-cases (rejected_by_risk reason) = inr (inl (reason, refl))
ExecutionResult-cases rejected_by_broker = inr (inr refl)

module _ {D : Type 0} ⦃d : Decimal D⦄ (s : Setup D) where
  -- No more entries were counted today than the limit allows.
  abbrev pub IsWithinLimit : BacktestEngine D → Type 0
  IsWithinLimit e = e.risk_state.daily_trades ≤ s.risk_config.max_trades_per_day

  sync_risk_state-daily_trades :
      (state : RiskState D) (pnls : List D)
      → (sync_risk_state state pnls).daily_trades ≡ state.daily_trades
  unfolding sync_risk_state update_state
  sync_risk_state-daily_trades state [] = refl
  sync_risk_state-daily_trades state (pnl ∷ pnls) =
      sync_risk_state-daily_trades (update_state state pnl) pnls

  sync_closed_trades-IsWithinLimit :
      (e : BacktestEngine D) → IsWithinLimit e → IsWithinLimit (sync_closed_trades e)
  unfolding sync_closed_trades
  sync_closed_trades-IsWithinLimit e h = elim (List-cases e.broker.closed_trades) [
    | inl quiet ↦ rw (quiet, sync_closed_trades) h
    | inr (t, (ts, closed)) ↦
        rw (closed, sync_closed_trades)
          (rw (sync_risk_state-daily_trades e.risk_state (map (λ x. x.net_pnl) (t ∷ ts))) h)
  ]

  roll_day-IsWithinLimit :
      (c : Candle D) (e : BacktestEngine D) → IsWithinLimit e → IsWithinLimit (roll_day c e)
  unfolding roll_day
  roll_day-IsWithinLimit c e h = ground arith

  evaluate_time_exit-risk_state :
      (c : Candle D) (e : BacktestEngine D) → (evaluate_time_exit s c e).risk_state ≡ e.risk_state
  unfolding evaluate_time_exit watch_position
  evaluate_time_exit-risk_state c e = ground arith

  cancel_pending_entry-risk_state :
      (e : BacktestEngine D) → (cancel_pending_entry s e).risk_state ≡ e.risk_state
  unfolding cancel_pending_entry
  cancel_pending_entry-risk_state e = ground arith

  flatten_session-risk_state :
      (c : Candle D) (e : BacktestEngine D) → (flatten_session s c e).risk_state ≡ e.risk_state
  unfolding flatten_session close_session
  flatten_session-risk_state c e = cancel_pending_entry-risk_state e

  settle-IsWithinLimit :
      (c : Candle D) (rest : List (Candle D)) (e : BacktestEngine D)
      → IsWithinLimit e
      → IsWithinLimit (settle s c rest e)
  unfolding settle record_equity feed
  settle-IsWithinLimit c rest e h =
      let rolled = roll_day-IsWithinLimit c e h in
      let watched : IsWithinLimit (evaluate_time_exit s c (feed s c (roll_day c e))) =
        rw (evaluate_time_exit-risk_state c (feed s c (roll_day c e))) rolled in
      elim (Bool-cases (is_last_bar_of_session s c rest)) [
        | inl last ↦
            rw (last, settle)
              (sync_closed_trades-IsWithinLimit _ (rw (flatten_session-risk_state c _) watched))
        | inr more ↦ rw (more, settle) (sync_closed_trades-IsWithinLimit _ watched)
      ]

  act_on-IsWithinLimit :
      (c : Candle D) (history : List (Candle D)) (ctx : MarketContext D) (sig : Signal D)
      (e : BacktestEngine D)
      → IsWithinLimit e
      → IsWithinLimit (act_on s c history ctx sig e)
  unfolding act_on
  act_on-IsWithinLimit c history ctx sig e h =
      let result =
        (process_signal (simulated s) s.risk_config s.ny sig ctx none (some c.close) e.risk_state
          e.broker.equity history e.broker).1 in
      elim (ExecutionResult-cases result) [
        | inl (id, (size, (risk, done))) ↦
            let (_, _, passed, _) =
              process_signal-executed (simulated s) s.risk_config s.ny sig ctx none (some c.close)
                e.risk_state e.broker.equity history e.broker done in
            let open_day =
              validate-DayIsOpen s.risk_config s.ny sig ctx none e.risk_state e.broker.equity
                history passed in
            rw (done, act_on) (omega (arith, open_day.trades_left))
        | inr (inl (reason, refusal)) ↦ rw (refusal, act_on) h
        | inr (inr failed) ↦ rw (failed, act_on) h
      ]

  consider-IsWithinLimit :
      (c : Candle D) (history : List (Candle D)) (ctx : MarketContext D) (r : SignalResult D)
      (e : BacktestEngine D)
      → IsWithinLimit e
      → IsWithinLimit (consider s c history ctx r e)
  unfolding consider
  consider-IsWithinLimit c history ctx nothing e h = h
  consider-IsWithinLimit c history ctx (refused reason) e h = h
  consider-IsWithinLimit c history ctx (signal sig) e h = act_on-IsWithinLimit c history ctx sig e h

  step-IsWithinLimit :
      (history : List (Candle D)) (c : Candle D) (rest : List (Candle D)) (e : BacktestEngine D)
      → IsWithinLimit e
      → IsWithinLimit (step s history c rest e)
  unfolding step
  step-IsWithinLimit history c rest e h =
      let settled = settle s c rest e in
      let fine = settle-IsWithinLimit c rest e h in
      elim (Option-cases (get_position s.symbol settled.broker)) [
        | inr (p, held) ↦ rw (held, step) fine
        | inl free ↦
            rw (free, step)
              (elim (Option-cases (analyze default_config s.symbol c.timeframe history)) [
                | inl blind ↦ rw (blind, step) fine
                | inr (ctx, seen) ↦
                    let acted =
                      consider-IsWithinLimit c history ctx (s.strategy ctx history) settled fine in
                    rw (seen, step)
                      (elim (Bool-cases (is_last_bar_of_session s c rest)) [
                        | inl last ↦ rw (last, step, cancel_pending_entry-risk_state) acted
                        | inr more ↦ rw (more, step) acted
                      ])
              ])
      ]

  -- If an engine has counted no more entries today than the limit of the day, then so has the engine
  -- after the replay of any series of candles, for every strategy.
  pub run_from-IsWithinLimit :
      (seen cs : List (Candle D)) (e : BacktestEngine D)
      → IsWithinLimit e
      → IsWithinLimit (run_from s seen cs e)
  unfolding run_from
  run_from-IsWithinLimit seen [] e h = sync_closed_trades-IsWithinLimit e h
  run_from-IsWithinLimit seen (c ∷ rest) e h =
      run_from-IsWithinLimit (seen ++ (c ∷ [])) rest _
        (step-IsWithinLimit (seen ++ (c ∷ [])) c rest e h)
