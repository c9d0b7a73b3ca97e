-- ===== src/Live/Entry.antt =====
-- An entry of the live worker: `analyze_and_execute`, from the account's limits to the order that is
-- tracked. The strategy and the repositories are parameters; saving a context, a signal or an order
-- answers the row's id or nothing, and a failure is only logged.
use daytradebot.Base.{
  ℕ, String, Bool, true, false, ◌||◌, Option, none, some, List, [], ◌∷◌, if◌then◌else◌, string_key,
}
use daytradebot.Decimal.{Decimal}
use daytradebot.Session.{NewYork}
use daytradebot.Context.{ContextAnalyzerConfig, analyze}
use daytradebot.Domain.Market.{Candle, MarketContext, TimeFrame}
use daytradebot.Domain.Signals.{
  Signal, SignalResult, nothing, signal, refused, SignalStatus, RejectionReason,
}
use daytradebot.Domain.Orders.{Order, OrderStatus, OrderType, new_order}
use daytradebot.Domain.Trades.{Position}
use daytradebot.TradeTracker.{get_or}
use daytradebot.Risk.{RiskConfig, RiskState, teto_de_notional}
use daytradebot.Broker.{Result, ok, err}
use daytradebot.Execution.{
  BrokerOps, ExecutionResult, executed, rejected_by_risk, rejected_by_broker, process_signal,
  side_of,
}
use daytradebot.Live.State.{LiveBroker, PlacedOrderInfo, Notify, halts_trading, portfolio_limit}
use daytradebot.Live.Exposure.{DayTrades, PortfolioLimit, portfolio_limit_hit}
use daytradebot.Live.Restart.{StoredOrder}

-- The limits of the account in the settings.
pub record RiskSettings (D : Type 0) : Type 0 where
  pub max_concurrent_positions : ℕ
  pub max_portfolio_notional_pct : Option D
  pub max_portfolio_daily_loss_pct : Option D

pub data BlockReason : Type 0 where
  risk : RejectionReason → BlockReason
  portfolio : PortfolioLimit → BlockReason

pub record ExecOutcome (D : Type 0) : Type 0 where
  pub placed : Option (PlacedOrderInfo D)
  pub blocked : Option BlockReason

-- The repositories an entry writes to.
pub record EntryRepos (W D : Type 0) : Type 0 where
  pub save_context : MarketContext D → W → W
  pub save_signal : Signal D → W → W × Option ℕ
  pub save_order : StoredOrder D → W → W × Option ℕ

-- What an instance of the worker is made of.
pub record LiveWorker (W D : Type 0) : Type 0 where
  pub symbol : String
  pub timeframe : TimeFrame
  pub broker : LiveBroker W D
  pub repos : Option (EntryRepos W D)
  pub day_trades : W → DayTrades D
  pub notify : Notify W
  pub settings : RiskSettings D
  pub analyzer : ContextAnalyzerConfig D
  pub strategy : MarketContext D → List (Candle D) → SignalResult D
  pub risk_config : RiskConfig D
  pub new_york : NewYork
  pub utc_now : W → ℕ

module _ {D : Type 0} where
  -- `ExecOutcome::default` and `ExecOutcome::placed`
  abbrev pub nothing_done : ExecOutcome D
  nothing_done = record { placed = none; blocked = none }

  abbrev pub blocked_by : BlockReason → ExecOutcome D
  blocked_by reason = record { placed = none; blocked = some reason }

  abbrev pub order_placed : PlacedOrderInfo D → ExecOutcome D
  order_placed info = record { placed = some info; blocked = none }

  unfoldable pub holds_symbol : String → List (Position D) → Bool
  holds_symbol symbol [] = false
  holds_symbol symbol (p ∷ ps) = string_key.same p.symbol symbol || holds_symbol symbol ps

-- What the engine asks of the broker: the position as it stands, and a submission.
abbrev pub engine_ops : {W D : Type 0} → LiveBroker W D → BrokerOps W String D
engine_ops b = record { find_position = λ k w. (b.find_position k w).1; submit = b.submit }

module _ {D : Type 0} ⦃d : Decimal D⦄ where
  -- `build_placed_order`; `none` is where the quantity of one is refused as well.
  abbrev placed_or_one : Signal D → D → Option (Order D)
  placed_or_one s size = elim (new_order s.symbol (side_of s.direction) OrderType.bracket size) [
    | some order ↦ some order
    | none ↦ new_order s.symbol (side_of s.direction) OrderType.bracket d.unity
  ]

  unfoldable pub build_placed_order : Signal D → D → String → Option ℕ → ℕ → Option (StoredOrder D)
  build_placed_order s size broker_order_id signal_db_id now = elim (placed_or_one s size) [
    | none ↦ none
    | some order ↦ some (record {
      db_id = none;
      broker_order_id = some broker_order_id;
      signal_db_id = signal_db_id;
      order = record order {
        signal_id = signal_db_id;
        entry_order_type = s.entry_order_type;
        price = s.entry_price;
        stop_price = s.stop_price;
        target_price = s.target_price;
        status = OrderStatus.submitted;
        submitted_at = some now;
      };
    })
  ]

module _ {D W : Type 0} ⦃d : Decimal D⦄ (x : LiveWorker W D) where
  abbrev pub save_order_row : EntryRepos W D → Option (StoredOrder D) → W → W × Option ℕ
  save_order_row rs none w = (w, none)
  save_order_row rs (some order) w = rs.save_order order w

  -- The ids of the signal's and the order's rows, with what saving them leaves.
  abbrev pub save_entry :
      Option (EntryRepos W D) → Signal D → D → String → W → W × (Option ℕ × Option ℕ)
  save_entry none s size id w = (w, (none, none))
  save_entry (some rs) s size id w =
      let (w1, signal_db_id) = rs.save_signal s w in
      let order = build_placed_order s size id signal_db_id (x.utc_now w1) in
      let (w2, order_db_id) = save_order_row rs order w1 in (w2, (signal_db_id, order_db_id))

  abbrev pub save_rejected : Option (EntryRepos W D) → Signal D → W → W
  save_rejected none s w = w
  save_rejected (some rs) s w = (rs.save_signal (record s { status = SignalStatus.rejected }) w).0

  abbrev pub save_context_row : Option (EntryRepos W D) → MarketContext D → W → W
  save_context_row none ctx w = w
  save_context_row (some rs) ctx w = rs.save_context ctx w

  unfoldable pub after_execution : Signal D → W × ExecutionResult String D → W × ExecOutcome D
  after_execution s (w, executed id size risk_amount) =
      let (w', (signal_db_id, order_db_id)) = save_entry x.repos s size id w in
      (
        w',
        order_placed (record {
          order_db_id = order_db_id;
          signal_db_id = signal_db_id;
          broker_order_id = id;
          entry_order_type = s.entry_order_type;
          candles_waited = 0;
          stop_price = get_or s.stop_price d.nought;
          target_price = s.target_price;
          risk_amount = risk_amount;
        }),
      )
  after_execution s (w, rejected_by_risk reason) = (
    save_rejected x.repos s w,
    if halts_trading reason then blocked_by (risk reason) else nothing_done,
  )
  after_execution s (w, rejected_by_broker) = (w, nothing_done)

  -- What the strategy answered.
  abbrev pub act_on_result :
      MarketContext D
      → Option D
      → RiskState D
      → D
      → List (Candle D)
      → W
      → SignalResult D
      → W × ExecOutcome D
  act_on_result ctx reference state equity candles w (signal s) = after_execution s (
      process_signal (engine_ops x.broker) x.risk_config x.new_york s ctx none reference state
        equity candles w)
  act_on_result ctx reference state equity candles w (refused reason) = (w, nothing_done)
  act_on_result ctx reference state equity candles w nothing = (w, nothing_done)

  abbrev pub run_strategy :
      Option D
      → RiskState D
      → D
      → List (Candle D)
      → W
      → Option (MarketContext D)
      → W × ExecOutcome D
  run_strategy reference state equity candles w none = (w, nothing_done)
  run_strategy reference state equity candles w (some ctx) =
      act_on_result ctx reference state equity candles (save_context_row x.repos ctx w)
        (x.strategy ctx candles)

  -- The most that a new position of this instance can be worth, with no measure of liquidity.
  abbrev pub notional_prospectivo : D → D
  notional_prospectivo equity = (teto_de_notional x.risk_config equity none).0

  abbrev pub account_limit : List (Position D) → D → W → Option PortfolioLimit
  account_limit positions equity w =
      portfolio_limit_hit positions equity (x.day_trades w) x.settings.max_concurrent_positions
        x.settings.max_portfolio_notional_pct x.settings.max_portfolio_daily_loss_pct
        (notional_prospectivo equity)

  abbrev pub within_account :
      Option D → RiskState D → D → List (Candle D) → W → Option PortfolioLimit → W × ExecOutcome D
  within_account reference state equity candles w (some limit) =
      (x.notify portfolio_limit w, blocked_by (portfolio limit))
  within_account reference state equity candles w none =
      run_strategy reference state equity candles w
        (analyze x.analyzer x.symbol x.timeframe candles)

  abbrev pub answered_ok : W × ExecOutcome D → W × Result (ExecOutcome D)
  answered_ok (w, out) = (w, ok out)

  abbrev pub unless_held : Bool → W → W × ExecOutcome D → W × Result (ExecOutcome D)
  unless_held true w r = (w, ok nothing_done)
  unless_held false w r = answered_ok r

  abbrev pub with_positions :
      Option D
      → RiskState D
      → D
      → List (Candle D)
      → W × Result (List (Position D))
      → W × Result (ExecOutcome D)
  with_positions reference state equity candles (w, err e) = (w, err e)
  with_positions reference state equity candles (w, ok positions) =
      unless_held (holds_symbol x.symbol positions) w
        (within_account reference state equity candles w (account_limit positions equity w))

  abbrev pub with_equity :
      Option D → RiskState D → List (Candle D) → W × Result D → W × Result (ExecOutcome D)
  with_equity reference state candles (w, err e) = (w, err e)
  with_equity reference state candles (w, ok equity) =
      with_positions reference state equity candles (x.broker.list_positions w)

  unfoldable pub analyze_and_execute :
      Option D → RiskState D → List (Candle D) → W → W × Result (ExecOutcome D)
  analyze_and_execute reference state candles w =
      with_equity reference state candles (x.broker.account_equity w)
