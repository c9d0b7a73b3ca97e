-- ===== src/Broker/State.antt =====
-- The state and the configuration of the simulated broker.
use daytradebot.Base.{
  ℕ, ◌≡◌, ◌↔◌, String, Bool, true, ◌&&◌, List, [], arith, ◌==◌, Key, string_key, HashMap,
}
use daytradebot.Decimal.{Decimal}
use daytradebot.Domain.Signals.{Direction}
use daytradebot.Domain.Orders.{Order}
use daytradebot.Domain.Trades.{Position, Trade}

pub data CommissionModel (D : Type 0) : Type 0 where
  per_trade : D → CommissionModel D
  -- by share, least by order, greatest as a fraction of the value
  per_share : D → D → D → CommissionModel D

-- The text "sim-{nanos}-{n}" of an id, by its two numbers.
pub record OrderId : Type 0 where
  pub nanos : ℕ
  pub number : ℕ

abbrev same_id : OrderId → OrderId → Bool
same_id a b = a.nanos == b.nanos && a.number == b.number

pub same_id_iff : (a b : OrderId) → (same_id a b ≡ true) ↔ (a ≡ b)
same_id_iff a b = (λ h. ground arith, λ h. ground arith)

instance abbrev pub order_id_key : Key OrderId
order_id_key = record { same = same_id; same_iff = same_id_iff }

pub record PendingExit (D : Type 0) : Type 0 where
  pub stop_price : D
  pub target_price : D

pub record PendingEntry (D : Type 0) : Type 0 where
  pub trigger_price : D
  pub direction : Direction
  pub stop_price : D
  pub target_price : D
  pub quantity : D
  pub order_id : OrderId
  pub signal_id : ℕ
  pub candles_waiting : ℕ

pub record SimulatedState (D : Type 0) : Type 0 where
  pub next_order_id : ℕ
  pub orders : HashMap OrderId (Order D)
  pub positions : HashMap String (Position D)
  pub pending_exits : HashMap String (PendingExit D)
  pub pending_entries : HashMap String (PendingEntry D)
  pub market_prices : HashMap String D
  pub now : ℕ
  pub cash : D
  pub equity : D
  pub buying_power : D
  pub daily_pnl : D
  pub closed_trades : List (Trade D)

pub record SimulatedBrokerConfig (D : Type 0) : Type 0 where
  pub initial_cash : D
  pub commission : CommissionModel D
  pub limit_fill_haircut_pct : D
  pub slippage_pct : D
  pub entry_validity_candles : ℕ
  pub entry_overshoot_tolerance : D

module _ {D : Type 0} ⦃d : Decimal D⦄ where
  -- `SimulatedBroker::new`, at the instant `now`.
  unfoldable pub new_broker : SimulatedBrokerConfig D → ℕ → SimulatedState D
  new_broker cfg now = record {
    next_order_id = 0;
    orders = [];
    positions = [];
    pending_exits = [];
    pending_entries = [];
    market_prices = [];
    now = now;
    cash = cfg.initial_cash;
    equity = cfg.initial_cash;
    buying_power = cfg.initial_cash;
    daily_pnl = d.nought;
    closed_trades = [];
  }
