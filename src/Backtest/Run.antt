-- ===== src/Backtest/Run.antt =====
-- What the loop keeps, and the end of a session.
use daytradebot.Base.{
  ◌≡◌, ◌⊎◌, inl, inr, none, some, List, [], ◌∷◌, ◌++◌, arith, Bool-cases, Option-cases, List-cases,
  string_key,
}
use daytradebot.Decimal.{Decimal}
use daytradebot.Domain.Market.{Candle, MarketContext}
use daytradebot.Domain.Signals.{Signal, SignalResult, nothing, signal, refused}
use daytradebot.Domain.Trades.{ExitReason, Position}
use daytradebot.TimeExit.{TimeExitTracker}
use daytradebot.Broker.{
  close_position_at_market, pending_entry_order_id, clear_closed_trades, get_position,
}
use daytradebot.Broker.Fits.{IsExclusive}
use daytradebot.Broker.Placing.{cancel_order-IsExclusive, place_order-IsExclusive}
use daytradebot.Broker.Exclusion.{
  set_market_candle-IsExclusive, close_position_at_market-IsExclusive,
}
use daytradebot.Execution.Safety.{process_signal_keeps}
use daytradebot.Context.{analyze, default_config}
use daytradebot.Backtest.Engine.{
  Setup, BacktestEngine, simulated, roll_day, feed, watch_position, evaluate_time_exit,
  is_last_bar_of_session, cancel_pending_entry, close_session, flatten_session, record_equity,
  sync_closed_trades, act_on, consider, settle, step, run_from,
}

module _ {D : Type 0} ⦃d : Decimal D⦄ (s : Setup D) where
  abbrev Keeps : (BacktestEngine D → BacktestEngine D) → Type 0
  Keeps f = (e : BacktestEngine D) → IsExclusive e.broker → IsExclusive (f e).broker

  roll_day-broker : (c : Candle D) (e : BacktestEngine D) → (roll_day c e).broker ≡ e.broker
  unfolding roll_day
  roll_day-broker c e = ground arith

  feed-Keeps : (c : Candle D) → Keeps (feed s c)
  unfolding feed
  feed-Keeps c e h = set_market_candle-IsExclusive s.broker_config s.symbol c e.broker h

  watch_position-broker :
      (c : Candle D) (t : TimeExitTracker D) (p : Position D) (e : BacktestEngine D)
      → ((watch_position s c t p e).broker ≡ e.broker)
        ⊎ ((watch_position s c t p e).broker
            ≡ (close_position_at_market s.broker_config s.symbol c.close ExitReason.time
                e.broker).0)
  unfolding watch_position
  watch_position-broker c t p e = ground arith

  watch_position-Keeps :
      (c : Candle D) (t : TimeExitTracker D) (p : Position D) → Keeps (watch_position s c t p)
  watch_position-Keeps c t p e h = elim (watch_position-broker c t p e) [
    | inl same ↦ rw same h
    | inr closed ↦ rw closed (
        close_position_at_market-IsExclusive s.broker_config s.symbol c.close ExitReason.time
          e.broker h)
  ]

  evaluate_time_exit-Keeps : (c : Candle D) → Keeps (evaluate_time_exit s c)
  unfolding evaluate_time_exit
  evaluate_time_exit-Keeps c e h = elim (Option-cases e.time_exit) [
    | inl off ↦ rw (off, evaluate_time_exit) h
    | inr (t, on) ↦
        rw (on, evaluate_time_exit)
          (elim (Option-cases (get_position s.symbol e.broker)) [
            | inl free ↦ rw (free, evaluate_time_exit) h
            | inr (p, held) ↦ rw (held, evaluate_time_exit) (watch_position-Keeps c t p e h)
          ])
  ]

  cancel_pending_entry-Keeps : Keeps (cancel_pending_entry s)
  unfolding cancel_pending_entry
  cancel_pending_entry-Keeps e h = elim (Option-cases (pending_entry_order_id s.symbol e.broker)) [
    | inl idle ↦ rw (idle, cancel_pending_entry) h
    | inr (id, waits) ↦
        rw (waits, cancel_pending_entry) (cancel_order-IsExclusive id s.utc_now e.broker h)
  ]

  flatten_session-Keeps : (c : Candle D) → Keeps (flatten_session s c)
  unfolding flatten_session close_session
  flatten_session-Keeps c e h =
      close_position_at_market-IsExclusive s.broker_config s.symbol c.close ExitReason.end_of_day _
        (cancel_pending_entry-Keeps e h)

  sync_closed_trades-Keeps : Keeps sync_closed_trades
  unfolding sync_closed_trades clear_closed_trades
  sync_closed_trades-Keeps e h = elim (List-cases e.broker.closed_trades) [
    | inl quiet ↦ rw (quiet, sync_closed_trades) h
    | inr (t, (ts, closed)) ↦ rw (closed, sync_closed_trades) h
  ]

  settle-Keeps : (c : Candle D) (rest : List (Candle D)) → Keeps (settle s c rest)
  unfolding settle record_equity
  settle-Keeps c rest e h =
      let fed = evaluate_time_exit-Keeps c _ (feed-Keeps c _ (rw (roll_day-broker c e) h)) in
      elim (Bool-cases (is_last_bar_of_session s c rest)) [
        | inl last ↦ rw (last, settle) (sync_closed_trades-Keeps _ (flatten_session-Keeps c _ fed))
        | inr more ↦ rw (more, settle) (sync_closed_trades-Keeps _ fed)
      ]

  act_on-Keeps :
      (c : Candle D) (history : List (Candle D)) (ctx : MarketContext D) (sig : Signal D)
      → Keeps (act_on s c history ctx sig)
  unfolding act_on
  act_on-Keeps c history ctx sig e h =
      process_signal_keeps (simulated s) s.risk_config s.ny sig ctx none (some c.close) e.risk_state
        e.broker.equity history e.broker IsExclusive h
        (λ size order built. place_order-IsExclusive s.broker_config s.nanos order e.broker h)

  consider-Keeps :
      (c : Candle D) (history : List (Candle D)) (ctx : MarketContext D) (r : SignalResult D)
      → Keeps (consider s c history ctx r)
  unfolding consider
  consider-Keeps c history ctx nothing e h = h
  consider-Keeps c history ctx (refused reason) e h = h
  consider-Keeps c history ctx (signal sig) e h = act_on-Keeps c history ctx sig e h

  -- If no symbol is held both as a position and as a waiting entry before a round of the loop, none is
  -- after it.
  pub step-IsExclusive :
      (history : List (Candle D)) (c : Candle D) (rest : List (Candle D)) (e : BacktestEngine D)
      → IsExclusive e.broker
      → IsExclusive (step s history c rest e).broker
  unfolding step
  step-IsExclusive history c rest e h =
      let settled = settle s c rest e in
      let fine = settle-Keeps c rest e h in
      elim (Option-cases (get_position s.symbol settled.broker)) [
        | inr (p, held) ↦ rw (held, step) fine
        | inl free ↦
            rw (free, step)
              (elim (Option-cases (analyze default_config s.symbol c.timeframe history)) [
                | inl blind ↦ rw (blind, step) fine
                | inr (ctx, seen) ↦
                    let acted =
                      consider-Keeps c history ctx (s.strategy ctx history) settled fine in
                    rw (seen, step)
                      (elim (Bool-cases (is_last_bar_of_session s c rest)) [
                        | inl last ↦ rw (last, step) (cancel_pending_entry-Keeps _ acted)
                        | inr more ↦ rw (more, step) acted
                      ])
              ])
      ]

  run_from-Keeps : (seen cs : List (Candle D)) → Keeps (run_from s seen cs)
  unfolding run_from
  run_from-Keeps seen [] e h = sync_closed_trades-Keeps e h
  run_from-Keeps seen (c ∷ rest) e h =
      run_from-Keeps (seen ++ (c ∷ [])) rest _ (step-IsExclusive (seen ++ (c ∷ [])) c rest e h)

  -- If in the broker no symbol has a position and a waiting entry together, and exits are pending only
  -- where there is a position, then this holds after the replay of any series of candles too, for
  -- every strategy and every configuration.
  pub run_from-IsExclusive :
      (seen cs : List (Candle D)) (e : BacktestEngine D)
      → IsExclusive e.broker
      → IsExclusive (run_from s seen cs e).broker
  run_from-IsExclusive seen cs e h = run_from-Keeps seen cs e h
