-- ===== src/Backtest/Engine.antt =====
-- `BacktestEngine`, one candle after the other.
use daytradebot.Base.{
  ℕ, ◌+◌, String, Bool, false, not, Option, none, some, List, [], ◌∷◌, ◌++◌, map, ◌==◌,
  if◌then◌else◌, string_key,
}
use daytradebot.Decimal.{Decimal}
use daytradebot.Session.{NewYork, et_date, utc_date}
use daytradebot.Domain.Market.{Candle, MarketContext}
use daytradebot.Domain.Signals.{Signal, SignalResult, nothing, signal, refused}
use daytradebot.Domain.Trades.{ExitReason, Position, Trade}
use daytradebot.TimeExit.{TimeExitTracker, ensure_tracking, reset, on_candle_close}
use daytradebot.Risk.{RiskConfig, RiskState, new_day}
use daytradebot.Broker.{
  OrderId, SimulatedState, SimulatedBrokerConfig, ok, set_market_candle, close_position_at_market,
  pending_entry_order_id, cancel_order, place_order, get_position, clear_closed_trades,
}
use daytradebot.Execution.{
  BrokerOps, ExecutionResult, executed, rejected_by_risk, rejected_by_broker, process_signal,
  sync_risk_state,
}
use daytradebot.Context.{analyze, default_config}

-- What does not change in a run; `flattens` says whether `session_flatten_et` is set.
pub record Setup (D : Type 0) : Type 0 where
  pub symbol : String
  pub broker_config : SimulatedBrokerConfig D
  pub risk_config : RiskConfig D
  pub flattens : Bool
  pub ny : NewYork
  -- the clock's reading, in nanoseconds, when an order is placed, and in seconds
  pub nanos : ℕ
  pub utc_now : ℕ
  -- `Strategy::analyze`, on the context and the history
  pub strategy : MarketContext D → List (Candle D) → SignalResult D

pub record BacktestEngine (D : Type 0) : Type 0 where
  pub broker : SimulatedState D
  pub risk_state : RiskState D
  pub current_day : Option ℕ
  pub time_exit : Option (TimeExitTracker D)
  pub closed_trades : List (Trade D)
  pub daily_equity : List (ℕ × D)

module _ {D : Type 0} ⦃d : Decimal D⦄ where
  -- The simulated broker as the execution engine sees it.
  abbrev pub simulated : Setup D → BrokerOps (SimulatedState D) OrderId D
  simulated s = record {
    find_position = λ symbol st. ok (get_position symbol st);
    submit = λ order st. place_order s.broker_config s.nanos order st;
  }

  -- The limits of the day start afresh when the UTC date changes.
  unfoldable pub roll_day : Candle D → BacktestEngine D → BacktestEngine D
  roll_day c e =
      let day = utc_date c.timestamp in
      let fresh : BacktestEngine D = record e { current_day = some day; risk_state = new_day } in
      elim e.current_day [ none ↦ fresh | some old ↦ if old == day then e else fresh ]

  unfoldable pub feed : Setup D → Candle D → BacktestEngine D → BacktestEngine D
  feed s c e = record e { broker = set_market_candle s.broker_config s.symbol c e.broker }

  -- `evaluate_time_exit`
  unfoldable pub watch_position :
      Setup D → Candle D → TimeExitTracker D → Position D → BacktestEngine D → BacktestEngine D
  watch_position s c tracker p e =
      let (tracker', due) =
        on_candle_close (ensure_tracking tracker p.avg_entry_price p.stop_price p.direction)
          c.close in
      if not due
      then record e { time_exit = some tracker' }
      else (let (broker', closed) =
            close_position_at_market s.broker_config s.symbol c.close ExitReason.time e.broker in
          record e {
            broker = broker';
            time_exit = some (if closed then reset tracker' else tracker');
          })

  unfoldable pub evaluate_time_exit : Setup D → Candle D → BacktestEngine D → BacktestEngine D
  evaluate_time_exit s c e = elim e.time_exit [
    | none ↦ e
    | some tracker ↦ elim (get_position s.symbol e.broker) [
      | none ↦ record e { time_exit = some (reset tracker) }
      | some p ↦ watch_position s c tracker p e
    ]
  ]

  -- `is_last_bar_of_session`, on the bar and the ones after it: the date changes in New York.
  unfoldable pub is_last_bar_of_session : Setup D → Candle D → List (Candle D) → Bool
  is_last_bar_of_session s c [] = false
  is_last_bar_of_session s c (next ∷ _) =
      if s.flattens then not (et_date s.ny next.timestamp == et_date s.ny c.timestamp) else false

  unfoldable pub cancel_pending_entry : Setup D → BacktestEngine D → BacktestEngine D
  cancel_pending_entry s e = elim (pending_entry_order_id s.symbol e.broker) [
    | none ↦ e
    | some id ↦ record e { broker = (cancel_order id s.utc_now e.broker).0 }
  ]

  unfoldable pub close_session : Setup D → Candle D → BacktestEngine D → BacktestEngine D
  close_session s c e =
      let (broker', closed) =
        close_position_at_market s.broker_config s.symbol c.close ExitReason.end_of_day e.broker in
      record e {
        broker = broker';
        time_exit =
            if closed
            then elim e.time_exit [ none ↦ none | some t ↦ some (reset t) ]
            else e.time_exit;
      }

  unfoldable pub flatten_session : Setup D → Candle D → BacktestEngine D → BacktestEngine D
  flatten_session s c e = close_session s c (cancel_pending_entry s e)

  unfoldable pub record_equity : Candle D → BacktestEngine D → BacktestEngine D
  record_equity c e = record e {
    daily_equity = e.daily_equity ++ ((c.timestamp, e.broker.equity) ∷ []);
  }

  -- `sync_closed_trades`, with the trades appended to the engine's own.
  unfoldable pub sync_closed_trades : BacktestEngine D → BacktestEngine D
  sync_closed_trades e = elim e.broker.closed_trades [
    | [] ↦ e
    | t ∷ ts ↦ record e {
      risk_state = sync_risk_state e.risk_state (map (λ trade. trade.net_pnl) (t ∷ ts));
      broker = clear_closed_trades e.broker;
      closed_trades = e.closed_trades ++ (t ∷ ts);
    }
  ]

  abbrev counted : ExecutionResult OrderId D → RiskState D → RiskState D
  counted (executed id size risk) state = record state { daily_trades = state.daily_trades + 1 }
  counted (rejected_by_risk reason) state = state
  counted rejected_by_broker state = state

  unfoldable pub act_on :
      Setup D
      → Candle D
      → List (Candle D)
      → MarketContext D
      → Signal D
      → BacktestEngine D
      → BacktestEngine D
  act_on s c history ctx sig e =
      let (broker', result) =
        process_signal (simulated s) s.risk_config s.ny sig ctx none (some c.close) e.risk_state
          e.broker.equity history e.broker in
      record e { broker = broker'; risk_state = counted result e.risk_state }

  unfoldable pub consider :
      Setup D
      → Candle D
      → List (Candle D)
      → MarketContext D
      → SignalResult D
      → BacktestEngine D
      → BacktestEngine D
  consider s c history ctx nothing e = e
  consider s c history ctx (refused reason) e = e
  consider s c history ctx (signal sig) e = act_on s c history ctx sig e

  -- The candle's prices, exits, flatten and book-keeping, before any signal is sought.
  unfoldable pub settle : Setup D → Candle D → List (Candle D) → BacktestEngine D → BacktestEngine D
  settle s c rest e =
      let watched = evaluate_time_exit s c (feed s c (roll_day c e)) in
      let flat = if is_last_bar_of_session s c rest then flatten_session s c watched else watched in
      sync_closed_trades (record_equity c flat)

  -- One round of the loop of `run`: `history` ends with the candle, `rest` comes after it.
  unfoldable pub step :
      Setup D → List (Candle D) → Candle D → List (Candle D) → BacktestEngine D → BacktestEngine D
  step s history c rest e =
      let settled = settle s c rest e in
      elim (get_position s.symbol settled.broker) [
        | some p ↦ settled
        | none ↦ elim (analyze default_config s.symbol c.timeframe history) [
          | none ↦ settled
          | some ctx ↦
              let acted = consider s c history ctx (s.strategy ctx history) settled in
              if is_last_bar_of_session s c rest then cancel_pending_entry s acted else acted
        ]
      ]

  unfoldable pub run_from :
      Setup D → List (Candle D) → List (Candle D) → BacktestEngine D → BacktestEngine D
  run_from s seen [] e = sync_closed_trades e
  run_from s seen (c ∷ rest) e =
      let history = seen ++ (c ∷ []) in run_from s history rest (step s history c rest e)
