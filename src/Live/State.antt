-- ===== src/Live/State.antt =====
-- What the live worker keeps between two ticks, and what it calls: the broker connection, the
-- repositories and the alerts, each as functions on the world `W` outside the process.
use daytradebot.Base.{ℕ, String, Bool, true, false, not, ◌&&◌, Option, none, some, List, string_key}
use daytradebot.Decimal.{Decimal}
use daytradebot.Domain.Signals.{Direction, long, short, RejectionReason}
use daytradebot.Domain.Orders.{Order, OrderSide, buy, sell, EntryOrderType}
use daytradebot.Domain.Trades.{Position}
use daytradebot.TimeExit.{TimeExitTracker}
use daytradebot.TradeTracker.{FillTracker, is_open}
use daytradebot.Broker.{Result}

-- An order as the broker lists it; the id may be missing.
pub record OpenOrder (D : Type 0) : Type 0 where
  pub broker_order_id : Option String
  pub order : Order D

-- The methods of the trait `Broker` that the worker calls. Each may change the world, also when it
-- answers with an error: a request can arrive although its answer is lost.
pub record LiveBroker (W D : Type 0) : Type 0 where
  -- the equity of `get_account_summary`, and `get_positions`
  pub account_equity : W → W × Result D
  pub list_positions : W → W × Result (List (Position D))
  pub find_position : String → W → W × Result (Option (Position D))
  pub list_open_orders : W → W × Result (List (OpenOrder D))
  pub submit : Order D → W → W × Result String
  pub cancel : String → W → W × Result (Unit {0})

-- The events that are recorded and sent as alerts.
pub data LiveAlert : Type 0 where
  persistence_failure untracked_position session_flatten trade_closed trade_message : LiveAlert
  bar_abandoned degenerate_bar_streak order_missing untracked_exposure : LiveAlert
  portfolio_limit trading_halted circuit_breaker : LiveAlert
  protection_quantity_mismatch position_unprotected stop_replaced : LiveAlert

abbrev pub Notify : Type 0 → Type 0
Notify W = LiveAlert → W → W

-- An order that was sent, as the worker tracks it.
pub record PlacedOrderInfo (D : Type 0) : Type 0 where
  pub order_db_id : Option ℕ
  pub signal_db_id : Option ℕ
  pub broker_order_id : String
  pub entry_order_type : EntryOrderType
  pub candles_waited : ℕ
  pub stop_price : D
  pub target_price : Option D
  pub risk_amount : D

pub record LiveFillState (D : Type 0) : Type 0 where
  pub tracker : FillTracker D
  pub open_order : Option (PlacedOrderInfo D)
  pub time_exit : TimeExitTracker D
  pub time_exit_triggered : Bool
  pub flatten_triggered : Bool
  pub unprotected_streak : ℕ
  pub persistence_degraded : Bool
  pub untracked_exposure_streak : ℕ
  pub missing_order_streak : ℕ

abbrev pub is_empty : String → Bool
is_empty s = string_key.same s ""

abbrev pub exit_side : Direction → OrderSide
exit_side long = sell
exit_side short = buy

-- The recusals that stop the day and not just the candle.
unfoldable pub halts_trading : RejectionReason → Bool
halts_trading RejectionReason.daily_loss_limit_reached = true
halts_trading RejectionReason.max_trades_reached = true
halts_trading RejectionReason.consecutive_losses = true
halts_trading RejectionReason.stop_missing = true
halts_trading _ = false

module _ {D : Type 0} ⦃d : Decimal D⦄ where
  -- The id of an order that was sent and is known at the broker.
  abbrev pub id_at_broker : PlacedOrderInfo D → Option String
  id_at_broker o = elim (is_empty o.broker_order_id) [
    | true ↦ none
    | false ↦ some o.broker_order_id
  ]

  unfoldable pub tracking_nothing : LiveFillState D → Bool
  tracking_nothing s = not (is_open s.tracker) && elim s.open_order [ none ↦ true | some _ ↦ false ]

  unfoldable pub pending_entry_at_broker : LiveFillState D → Bool
  pending_entry_at_broker s =
      not (is_open s.tracker)
      && elim s.open_order [ none ↦ false | some o ↦ not (is_empty o.broker_order_id) ]
