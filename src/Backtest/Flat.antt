-- ===== src/Backtest/Flat.antt =====
-- No position of the symbol is held past the last bar of a session.
use daytradebot.Base.{
  ◌≡◌, inl, inr, String, true, none, List, Option-cases, List-cases, lookup, lookup-erase_self,
  string_key,
}
use daytradebot.Decimal.{Decimal}
use daytradebot.Domain.Market.{Candle}
use daytradebot.Domain.Trades.{ExitReason}
use daytradebot.Broker.{
  SimulatedState, SimulatedBrokerConfig, close_position_at_market, book_exit, get_position,
  clear_closed_trades,
}
use daytradebot.Backtest.Engine.{
  Setup, BacktestEngine, is_last_bar_of_session, close_session, flatten_session,
  cancel_pending_entry, sync_closed_trades, record_equity, settle,
}

module _ {D : Type 0} ⦃d : Decimal D⦄ where
  get_position-close_position_at_market :
      (cfg : SimulatedBrokerConfig D) (k : String) (price : D) (reason : ExitReason)
      (st : SimulatedState D)
      → get_position k (close_position_at_market cfg k price reason st).0 ≡ none
  unfolding get_position close_position_at_market book_exit
  get_position-close_position_at_market cfg k price reason st =
      elim (Option-cases (lookup k st.positions)) [
        | inl free ↦ rw (free, close_position_at_market) free
        | inr (p, held) ↦ rw (held, close_position_at_market) (lookup-erase_self k st.positions)
      ]

  get_position-sync_closed_trades :
      (k : String) (e : BacktestEngine D)
      → get_position k (sync_closed_trades e).broker ≡ get_position k e.broker
  unfolding get_position sync_closed_trades clear_closed_trades
  get_position-sync_closed_trades k e = elim (List-cases e.broker.closed_trades) [
    | inl quiet ↦ rw (quiet, sync_closed_trades)
    | inr (t, (ts, closed)) ↦ rw (closed, sync_closed_trades)
  ]

  get_position-flatten_session :
      (s : Setup D) (c : Candle D) (e : BacktestEngine D)
      → get_position s.symbol (flatten_session s c e).broker ≡ none
  unfolding flatten_session close_session
  get_position-flatten_session s c e =
      get_position-close_position_at_market s.broker_config s.symbol c.close ExitReason.end_of_day
        (cancel_pending_entry s e).broker

  -- On the last bar of a session no position of the symbol is left when its prices, exits and
  -- flattening are done, whatever was held, entered or waiting before the bar.
  pub settle-flat :
      (s : Setup D) (c : Candle D) (rest : List (Candle D)) (e : BacktestEngine D)
      → is_last_bar_of_session s c rest ≡ true
      → get_position s.symbol (settle s c rest e).broker ≡ none
  unfolding settle record_equity
  settle-flat s c rest e last =
      rw (last, settle)
        (rw (get_position-sync_closed_trades s.symbol _) (get_position-flatten_session s c _))
