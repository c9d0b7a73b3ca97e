-- ===== src/Tests/Metrics.antt =====
-- The metrics of a backtest on concrete trades.
use daytradebot.Base.{◌+◌, ◌/◌, ◌≡◌, ◌≤◌, refl, false, List, [], ◌∷◌, lookup, insert}
use daytradebot.Decimal.{◌≼◌}
use daytradebot.Decimal.Integers.{ℤ, pos, negsuc, integers, ℤ-IsOrdered}
use daytradebot.Domain.Trades.{Trade}
use daytradebot.Session.{et_date, et_time}
use daytradebot.Backtest.Metrics.{
  tally, tally_trade, group_trade, count_result, draw_down, finish, push, effective_exit_reason,
  exit_reason_str,
}
use daytradebot.Backtest.Summary.{compute, summary, finish_all, positives}
use daytradebot.Backtest.Drawdown.{compute-IsConsistent, equities, equity_after, peak_of}
use daytradebot.Tests.{ny}
use daytradebot.Tests.Worker.{result}

-- A gain of 40, losses of 20 and of 10, and a gain of 100.
abbrev trades : List (Trade ℤ)
trades = result (pos 40) ∷ result (negsuc 19) ∷ result (negsuc 9) ∷ result (pos 100) ∷ []

counts :
    let m = compute ny (λ d. d / 30) (λ t. false) trades (pos 1000) in
    (m.tallied.winning_trades ≡ 2)
    × (m.tallied.losing_trades ≡ 2)
    × (m.tallied.max_consecutive_losses ≡ 2)
    × (m.tallied.max_drawdown ≡ pos 30)
    × (m.net_pnl ≡ pos 110)
    × (m.trading_days ≡ 1)
unfolding compute tally tally_trade group_trade count_result draw_down summary finish_all finish
    push positives effective_exit_reason exit_reason_str et_date et_time lookup insert
counts = (refl, refl, refl, refl, refl, refl)

compute-IsConsistent_example :
    let m = compute ny (λ d. d / 30) (λ t. false) trades (pos 1000) in
    (m.tallied.winning_trades + m.tallied.losing_trades ≡ m.total_trades)
    × (m.tallied.max_consecutive_losses ≤ m.tallied.losing_trades)
    × (pos 30 ≼ m.tallied.max_drawdown)
unfolding equities equity_after peak_of
compute-IsConsistent_example =
    compute-IsConsistent ny (λ d. d / 30) (λ t. false) ℤ-IsOrdered (pos 1000) (result (pos 40))
      (result (negsuc 19) ∷ result (negsuc 9) ∷ []) (result (pos 100) ∷ [])
