-- ===== src/Domain/Trades.antt =====
-- Positions, closed trades and the reasons for leaving them: crates/trader-domain/src/trades.rs,
-- with the trading mode of trading_mode.rs. Database ids, json journals and texts are left out.
use daytradebot.Base.{ℕ, String, Bool, true, false, Option, none, some, if◌then◌else◌}
use daytradebot.Decimal.{Decimal, le}
use daytradebot.Domain.Signals.{Direction}

pub data TradingMode : Type 0 where
  paper real : TradingMode

-- `TradingMode::is_real`
abbrev pub is_real : TradingMode → Bool
is_real paper = false
is_real real = true

pub data ExitReason : Type 0 where
  target stop time manual risk_manager end_of_day : ExitReason

pub data PositionStatus : Type 0 where
  opened closed : PositionStatus

pub record Position (D : Type 0) : Type 0 where
  pub symbol : String
  pub signal_id : ℕ
  pub direction : Direction
  pub quantity : D
  pub avg_entry_price : D
  pub entry_time : ℕ
  pub stop_price : D
  pub target_price : Option D
  pub unrealized_pnl : D
  pub status : PositionStatus

pub record Trade (D : Type 0) : Type 0 where
  pub symbol : String
  pub signal_id : ℕ
  pub direction : Direction
  pub entry_price : D
  pub exit_price : D
  pub quantity : D
  pub entry_time : ℕ
  pub exit_time : ℕ
  pub stop_price : D
  pub target_price : Option D
  pub gross_pnl : D
  pub commissions : D
  pub fees : D
  pub net_pnl : D
  pub risk_amount : D
  pub result_in_r : D
  pub exit_reason : ExitReason

module _ {D : Type 0} ⦃d : Decimal D⦄ where
  -- `Position::new`, opened at the instant `now`; `none` is `InvalidQuantity`.
  unfoldable pub new_position : String → ℕ → Direction → D → D → D → ℕ → Option (Position D)
  new_position symbol signal_id direction quantity avg_entry_price stop_price now =
      if le quantity d.nought
      then none
      else some (record {
        symbol = symbol;
        signal_id = signal_id;
        direction = direction;
        quantity = quantity;
        avg_entry_price = avg_entry_price;
        entry_time = now;
        stop_price = stop_price;
        target_price = none;
        unrealized_pnl = d.nought;
        status = PositionStatus.opened;
      })
