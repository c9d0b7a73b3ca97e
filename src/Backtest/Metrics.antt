-- ===== src/Backtest/Metrics.antt =====
-- The loop over the trades of a backtest: crates/trader-backtest/src/metrics.rs. The statistics in floating point
-- (Sharpe ratio, t-statistic, correlation and the shares of days and months) and the texts for display
-- are left out; the mark of a forced exit in a trade's journal is a parameter.
use daytradebot.Base.{
  ℕ, ◌+◌, ◌/◌, ◌≡◌, ◌↔◌, Bool, true, false, ◌&&◌, String, Option, none, some, List, [], ◌∷◌, arith,
  ltb, leb, ◌==◌, if◌then◌else◌, HashMap, Key, string_key, lookup, insert,
}
use daytradebot.Decimal.{Decimal, ◌⊕◌, ◌⊖◌, ◌⊗◌, ◌⊘◌, lt, max, min, is_zero}
use daytradebot.Session.{NewYork, et_date, et_time}
use daytradebot.Domain.Signals.{Direction, long, short}
use daytradebot.Domain.Trades.{Trade, ExitReason}
use daytradebot.TradeTracker.{get_or}

pub same_number_iff : (a b : ℕ) → ((a == b) ≡ true) ↔ (a ≡ b)
same_number_iff a b = (λ h. ground arith, λ h. ground arith)

instance abbrev pub number_key : Key ℕ
number_key = record { same = λ a b. a == b; same_iff = same_number_iff }

abbrev pub max_ℕ : ℕ → ℕ → ℕ
max_ℕ a b = if leb a b then b else a

-- `ExitReason::as_str`
unfoldable pub exit_reason_str : ExitReason → String
exit_reason_str ExitReason.target = "target"
exit_reason_str ExitReason.stop = "stop"
exit_reason_str ExitReason.time = "time"
exit_reason_str ExitReason.manual = "manual"
exit_reason_str ExitReason.risk_manager = "risk_manager"
exit_reason_str ExitReason.end_of_day = "end_of_day"

abbrev pub is_manual : ExitReason → Bool
is_manual ExitReason.manual = true
is_manual _ = false

-- `Trade::effective_exit_reason`, with the journal's mark of a forced exit.
unfoldable pub effective_exit_reason : Bool → ExitReason → ExitReason
effective_exit_reason forced reason =
    if is_manual reason && forced then ExitReason.end_of_day else reason

abbrev pub direction_str : Direction → String
direction_str long = "long"
direction_str short = "short"

pub record GroupMetrics (D : Type 0) : Type 0 where
  pub trades : ℕ
  pub wins : ℕ
  pub net_pnl : D
  pub gross_profit : D
  pub gross_loss : D
  pub profit_factor : Option D
  pub avg_r : D

-- The accumulators of the loop; the best and the worst trade start from nothing.
pub record Tally (D : Type 0) : Type 0 where
  pub winning_trades : ℕ
  pub losing_trades : ℕ
  pub gross_profit : D
  pub gross_loss : D
  pub max_drawdown : D
  pub max_drawdown_pct : D
  pub peak : D
  pub current_equity : D
  pub max_consecutive_losses : ℕ
  pub current_consecutive_losses : ℕ
  pub best_trade : Option D
  pub worst_trade : Option D
  pub total_r : D
  pub by_exit_reason : HashMap String (GroupMetrics D)
  pub by_direction : HashMap String (GroupMetrics D)
  pub by_entry_hour_et : HashMap ℕ (GroupMetrics D)
  pub by_day : HashMap ℕ D
  pub by_month : HashMap ℕ D
  pub gross_profit_r : D
  pub gross_loss_r : D
  pub cost_total : D

module _ {D : Type 0} ⦃d : Decimal D⦄ where
  abbrev pub empty_group : GroupMetrics D
  empty_group = record {
    trades = 0;
    wins = 0;
    net_pnl = d.nought;
    gross_profit = d.nought;
    gross_loss = d.nought;
    profit_factor = none;
    avg_r = d.nought;
  }

  unfoldable pub push : GroupMetrics D → Trade D → GroupMetrics D
  push g t =
      let won = lt d.nought t.net_pnl in
      record g {
        trades = g.trades + 1;
        wins = if won then g.wins + 1 else g.wins;
        net_pnl = g.net_pnl ⊕ t.net_pnl;
        gross_profit = if won then g.gross_profit ⊕ t.net_pnl else g.gross_profit;
        gross_loss = if won then g.gross_loss else g.gross_loss ⊕ d.abs t.net_pnl;
        avg_r = g.avg_r ⊕ t.result_in_r;
      }

  -- A quotient of gains and losses, where there is a loss.
  abbrev pub factor : D → D → Option D
  factor profit loss = if is_zero loss then none else some (profit ⊘ loss)

  unfoldable pub finish : GroupMetrics D → GroupMetrics D
  finish g = record g {
    avg_r = if ltb 0 g.trades then g.avg_r ⊘ d.of_ℕ g.trades else g.avg_r;
    profit_factor = factor g.gross_profit g.gross_loss;
  }

  -- `entry(k).or_default()`, changed.
  abbrev pub push_at :
      {K : Type 0} ⦃key : Key K⦄
      → K
      → Trade D
      → HashMap K (GroupMetrics D)
      → HashMap K (GroupMetrics D)
  push_at k t m = insert k (push (get_or (lookup k m) empty_group) t) m

  abbrev pub add_at : {K : Type 0} ⦃key : Key K⦄ → K → D → HashMap K D → HashMap K D
  add_at k v m = insert k (get_or (lookup k m) d.nought ⊕ v) m

  abbrev pub new_tally : D → Tally D
  new_tally initial_capital = record {
    winning_trades = 0;
    losing_trades = 0;
    gross_profit = d.nought;
    gross_loss = d.nought;
    max_drawdown = d.nought;
    max_drawdown_pct = d.nought;
    peak = initial_capital;
    current_equity = initial_capital;
    max_consecutive_losses = 0;
    current_consecutive_losses = 0;
    best_trade = none;
    worst_trade = none;
    total_r = d.nought;
    by_exit_reason = [];
    by_direction = [];
    by_entry_hour_et = [];
    by_day = [];
    by_month = [];
    gross_profit_r = d.nought;
    gross_loss_r = d.nought;
    cost_total = d.nought;
  }

  abbrev pub greatest : Option D → D → D
  greatest none v = v
  greatest (some w) v = max w v

  abbrev pub least : Option D → D → D
  least none v = v
  least (some w) v = min w v

  -- Gains, losses and the streak of losses.
  unfoldable pub count_result : Trade D → Tally D → Tally D
  count_result t y =
      let streak = y.current_consecutive_losses + 1 in
      if lt d.nought t.net_pnl
      then record y {
        winning_trades = y.winning_trades + 1;
        gross_profit = y.gross_profit ⊕ t.net_pnl;
        current_consecutive_losses = 0;
      }
      else record y {
        losing_trades = y.losing_trades + 1;
        gross_loss = y.gross_loss ⊕ d.abs t.net_pnl;
        current_consecutive_losses = streak;
        max_consecutive_losses = max_ℕ y.max_consecutive_losses streak;
      }

  -- The peak of the equity and the drawdown from it.
  unfoldable pub draw_down : Tally D → Tally D
  draw_down y =
      let peak = if lt y.peak y.current_equity then y.current_equity else y.peak in
      let drawdown = peak ⊖ y.current_equity in
      if lt y.max_drawdown drawdown
      then record y {
        peak = peak;
        max_drawdown = drawdown;
        max_drawdown_pct = if is_zero peak then d.nought else drawdown ⊘ peak ⊗ d.of_ℕ 100;
      }
      else record y { peak = peak }

  module _ (ny : NewYork) (month_of : ℕ → ℕ) (forced : Trade D → Bool) where
    -- Groups, days and months, and the result in multiples of the risk.
    unfoldable pub group_trade : Trade D → Tally D → Tally D
    group_trade t y =
        let day = et_date ny t.exit_time in
        let won = lt d.nought t.result_in_r in
        record y {
          current_equity = y.current_equity ⊕ t.net_pnl;
          by_exit_reason =
              push_at (exit_reason_str (effective_exit_reason (forced t) t.exit_reason)) t
                y.by_exit_reason;
          by_direction = push_at (direction_str t.direction) t y.by_direction;
          by_entry_hour_et = push_at (et_time ny t.entry_time / 3600) t y.by_entry_hour_et;
          by_day = add_at day t.net_pnl y.by_day;
          by_month = add_at (month_of day) t.net_pnl y.by_month;
          gross_profit_r = if won then y.gross_profit_r ⊕ t.result_in_r else y.gross_profit_r;
          gross_loss_r = if won then y.gross_loss_r else y.gross_loss_r ⊕ d.abs t.result_in_r;
          cost_total = y.cost_total ⊕ (t.commissions ⊕ t.fees);
        }

    abbrev pub extremes : Trade D → Tally D → Tally D
    extremes t y = record y {
      best_trade = some (greatest y.best_trade t.net_pnl);
      worst_trade = some (least y.worst_trade t.net_pnl);
      total_r = y.total_r ⊕ t.result_in_r;
    }

    unfoldable pub tally_trade : Tally D → Trade D → Tally D
    tally_trade y t = extremes t (draw_down (count_result t (group_trade t y)))

    unfoldable pub tally : Tally D → List (Trade D) → Tally D
    tally y [] = y
    tally y (t ∷ ts) = tally (tally_trade y t) ts
