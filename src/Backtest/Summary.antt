-- ===== src/Backtest/Summary.antt =====
-- The metrics of a backtest from its trades: `BacktestMetrics::compute` of
-- crates/trader-backtest/src/metrics.rs, after the loop.
use daytradebot.Base.{
  ℕ, ◌+◌, Bool, Option, none, some, List, [], ◌∷◌, length, if◌then◌else◌, HashMap, string_key,
}
use daytradebot.Decimal.{Decimal, ◌⊖◌, ◌⊗◌, ◌⊘◌, lt}
use daytradebot.Session.{NewYork}
use daytradebot.Domain.Trades.{Trade}
use daytradebot.Backtest.Metrics.{GroupMetrics, Tally, new_tally, finish, factor, tally, number_key}

-- The metrics, with the accumulators of the loop that they pass on.
pub record BacktestMetrics (D : Type 0) : Type 0 where
  pub total_trades : ℕ
  pub tallied : Tally D
  pub win_rate : D
  pub net_pnl : D
  pub profit_factor : Option D
  pub avg_pnl_per_trade : D
  pub avg_r_per_trade : D
  pub profit_factor_r : Option D
  pub trading_days : ℕ
  pub months_total : ℕ
  pub months_positive : ℕ

module _ {D : Type 0} ⦃d : Decimal D⦄ where
  unfoldable pub finish_all : {K : Type 0} → HashMap K (GroupMetrics D) → HashMap K (GroupMetrics D)
  finish_all [] = []
  finish_all ((k, g) ∷ m) = (k, finish g) ∷ finish_all m

  unfoldable pub positives : HashMap ℕ D → ℕ
  positives [] = 0
  positives ((k, v) ∷ m) = let rest = positives m in if lt d.nought v then rest + 1 else rest

  abbrev pub finished : Tally D → Tally D
  finished y = record y {
    by_exit_reason = finish_all y.by_exit_reason;
    by_direction = finish_all y.by_direction;
    by_entry_hour_et = finish_all y.by_entry_hour_et;
  }

  unfoldable pub summary : ℕ → Tally D → BacktestMetrics D
  summary n y =
      let net_pnl = y.gross_profit ⊖ y.gross_loss in
      record {
        total_trades = n;
        tallied = finished y;
        win_rate = d.of_ℕ y.winning_trades ⊘ d.of_ℕ n ⊗ d.of_ℕ 100;
        net_pnl = net_pnl;
        profit_factor = factor y.gross_profit y.gross_loss;
        avg_pnl_per_trade = net_pnl ⊘ d.of_ℕ n;
        avg_r_per_trade = y.total_r ⊘ d.of_ℕ n;
        profit_factor_r = factor y.gross_profit_r y.gross_loss_r;
        trading_days = length y.by_day;
        months_total = length y.by_month;
        months_positive = positives y.by_month;
      }

  -- `BacktestMetrics::empty`
  abbrev pub empty_metrics : D → BacktestMetrics D
  empty_metrics initial_capital = record {
    total_trades = 0;
    tallied = record (new_tally initial_capital) {
      best_trade = some d.nought;
      worst_trade = some d.nought;
    };
    win_rate = d.nought;
    net_pnl = d.nought;
    profit_factor = none;
    avg_pnl_per_trade = d.nought;
    avg_r_per_trade = d.nought;
    profit_factor_r = none;
    trading_days = 0;
    months_total = 0;
    months_positive = 0;
  }

  -- `BacktestMetrics::compute`
  unfoldable pub compute :
      NewYork → (ℕ → ℕ) → (Trade D → Bool) → List (Trade D) → D → BacktestMetrics D
  compute ny month_of forced [] initial_capital = empty_metrics initial_capital
  compute ny month_of forced (t ∷ ts) initial_capital =
      summary (length (t ∷ ts)) (tally ny month_of forced (new_tally initial_capital) (t ∷ ts))
