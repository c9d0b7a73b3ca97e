-- ===== src/Broker/Exclusion.antt =====
-- What prices, candles and closing at the market leave of the rule of one position or one waiting
-- entry for a symbol.
use daytradebot.Base.{
  ℕ, ◌≡◌, inl, inr, String, some, arith, Bool-cases, Option-cases, lookup, erase, lookup-erase, not,
  ◌&&◌, ◌+◌, string_key,
}
use daytradebot.Decimal.{Decimal, le}
use daytradebot.Domain.Market.{Candle}
use daytradebot.Domain.Trades.{ExitReason, Position, new_position}
use daytradebot.Broker.State.{order_id_key, PendingEntry, SimulatedState, SimulatedBrokerConfig}
use daytradebot.Broker.Prices.{
  mark, price_hit, exit_at_price, book_exit, set_market_price, close_position_at_market,
}
use daytradebot.Broker.Market.{
  is_triggered, is_overshot, tick, candle_hit, fill_entry, work_entry, enter_at_candle,
  exit_at_candle, set_market_candle,
}
use daytradebot.Domain.Orders.{stop_entry_expired}
use daytradebot.Broker.Fits.{
  IsExclusive, Fits-marked, Fits-entered, Fits-left, Fits-waiting, no_position,
}

module _ {D : Type 0} ⦃d : Decimal D⦄ where
  pub mark-IsExclusive :
      (k : String) (price : D) (st : SimulatedState D)
      → IsExclusive st
      → IsExclusive (mark k price st)
  unfolding mark
  mark-IsExclusive k price st h s = elim (Option-cases (lookup k st.positions)) [
    | inl e ↦ rw (e, mark) (h s)
    | inr (p, e) ↦ rw (e, mark) (Fits-marked k st h p _ e s)
  ]

  book_exit-IsExclusive :
      (cfg : SimulatedBrokerConfig D) (k : String) (p : Position D) (price : D)
      (reason : ExitReason) (t : ℕ) (st : SimulatedState D)
      → IsExclusive st
      → IsExclusive (book_exit cfg k p price reason t st)
  unfolding book_exit
  book_exit-IsExclusive cfg k p price reason t st h s =
      ground (arith, h s, lookup-erase k s st.positions, lookup-erase k s st.pending_exits)

  fill_entry-IsExclusive :
      (cfg : SimulatedBrokerConfig D) (k : String) (e : PendingEntry D) (c : Candle D)
      (st : SimulatedState D)
      → IsExclusive st
      → IsExclusive
          (fill_entry cfg k e c (record st { pending_entries = erase k st.pending_entries }))
  unfolding fill_entry new_position
  fill_entry-IsExclusive cfg k e c st h s = elim (Bool-cases (le e.quantity d.nought)) [
    | inl empty ↦ rw (empty, fill_entry, new_position) (Fits-left k st h s)
    | inr full ↦ rw (full, fill_entry, new_position) (Fits-entered k st h _ _ s)
  ]

  work_entry-IsExclusive :
      (cfg : SimulatedBrokerConfig D) (k : String) (c : Candle D) (e : PendingEntry D)
      (st : SimulatedState D)
      → IsExclusive st
      → lookup k st.pending_entries ≡ some e
      → IsExclusive (work_entry cfg k c e st)
  unfolding work_entry
  work_entry-IsExclusive cfg k c e st h w s =
      let expired =
        not (is_triggered e c)
        && stop_entry_expired (e.candles_waiting + 1) cfg.entry_validity_candles in
      elim (Bool-cases expired) [
        | inl x ↦ rw (x, work_entry) (Fits-left k st h s)
        | inr x ↦
            rw (x, work_entry)
              (elim (Bool-cases (is_triggered e c)) [
                | inr waits ↦
                    rw (waits, work_entry) (Fits-waiting k st h _ (no_position k st h e w) s)
                | inl runs ↦
                    rw (runs, work_entry)
                      (elim (Bool-cases (is_overshot cfg e c)) [
                        | inl off ↦ rw (off, work_entry) (Fits-left k st h s)
                        | inr fills ↦
                            rw (fills, work_entry) (fill_entry-IsExclusive cfg k e c st h s)
                      ])
              ])
      ]

  pub enter_at_candle-IsExclusive :
      (cfg : SimulatedBrokerConfig D) (k : String) (c : Candle D) (st : SimulatedState D)
      → IsExclusive st
      → IsExclusive (enter_at_candle cfg k c st)
  unfolding enter_at_candle
  enter_at_candle-IsExclusive cfg k c st h = elim (Option-cases (lookup k st.pending_entries)) [
    | inl e ↦ rw (e, enter_at_candle) h
    | inr (entry, e) ↦ rw (e, enter_at_candle) (work_entry-IsExclusive cfg k c entry st h e)
  ]

  exit_at_candle-IsExclusive :
      (cfg : SimulatedBrokerConfig D) (k : String) (c : Candle D) (st : SimulatedState D)
      → IsExclusive st
      → IsExclusive (exit_at_candle cfg k c st)
  unfolding exit_at_candle
  exit_at_candle-IsExclusive cfg k c st h = elim (Option-cases (lookup k st.pending_exits)) [
    | inl e ↦ rw (e, exit_at_candle) h
    | inr (exit, e) ↦
        rw (e, exit_at_candle)
          (elim (Option-cases (lookup k st.positions)) [
            | inl n ↦ rw (n, exit_at_candle) h
            | inr (p, held) ↦
                rw (held, exit_at_candle)
                  (elim (Option-cases (candle_hit cfg p.direction exit c)) [
                    | inl n ↦ rw (n, exit_at_candle) h
                    | inr (hit, hits) ↦
                        rw (hits, exit_at_candle)
                          (book_exit-IsExclusive cfg k p hit.0 hit.1 st.now st h)
                  ])
          ])
  ]

  -- If no symbol has a position and a waiting entry together, and exits are pending only where there
  -- is a position, then this holds after a candle too, whatever it triggers, expires, calls off or
  -- closes.
  pub set_market_candle-IsExclusive :
      (cfg : SimulatedBrokerConfig D) (k : String) (c : Candle D) (st : SimulatedState D)
      → IsExclusive st
      → IsExclusive (set_market_candle cfg k c st)
  unfolding set_market_candle
  set_market_candle-IsExclusive cfg k c st h =
      let st' = tick k c st in
      exit_at_candle-IsExclusive cfg k c _
        (mark-IsExclusive k c.close _ (enter_at_candle-IsExclusive cfg k c st' h))

  exit_at_price-IsExclusive :
      (cfg : SimulatedBrokerConfig D) (k : String) (price : D) (t : ℕ) (st : SimulatedState D)
      → IsExclusive st
      → IsExclusive (exit_at_price cfg k price t st)
  unfolding exit_at_price
  exit_at_price-IsExclusive cfg k price t st h = elim (Option-cases (lookup k st.pending_exits)) [
    | inl e ↦ rw (e, exit_at_price) h
    | inr (exit, e) ↦
        rw (e, exit_at_price)
          (elim (Option-cases (price_hit exit price)) [
            | inl n ↦ rw (n, exit_at_price) h
            | inr (reason, hits) ↦
                rw (hits, exit_at_price)
                  (elim (Option-cases (lookup k st.positions)) [
                    | inl n ↦ rw (n, exit_at_price) h
                    | inr (p, held) ↦
                        rw (held, exit_at_price) (book_exit-IsExclusive cfg k p price reason t st h)
                  ])
          ])
  ]

  -- If no symbol has a position and a waiting entry together, and exits are pending only where there
  -- is a position, then this holds after a market price too.
  pub set_market_price-IsExclusive :
      (cfg : SimulatedBrokerConfig D) (k : String) (price : D) (t : ℕ) (st : SimulatedState D)
      → IsExclusive st
      → IsExclusive (set_market_price cfg k price t st)
  unfolding set_market_price
  set_market_price-IsExclusive cfg k price t st h =
      exit_at_price-IsExclusive cfg k price t _ (mark-IsExclusive k price _ h)

  -- If no symbol has a position and a waiting entry together, and exits are pending only where there
  -- is a position, then this holds after a close at the market too, with a position or without.
  pub close_position_at_market-IsExclusive :
      (cfg : SimulatedBrokerConfig D) (k : String) (price : D) (reason : ExitReason)
      (st : SimulatedState D)
      → IsExclusive st
      → IsExclusive (close_position_at_market cfg k price reason st).0
  unfolding close_position_at_market
  close_position_at_market-IsExclusive cfg k price reason st h =
      elim (Option-cases (lookup k st.positions)) [
        | inl n ↦ rw (n, close_position_at_market) h
        | inr (p, held) ↦
            rw (held, close_position_at_market) (book_exit-IsExclusive cfg k p _ reason st.now _ h)
      ]
