-- ===== src/Broker/Lifecycle/Refinement.antt =====
-- The simulated broker as an implementation of the machine.
use daytradebot.Base.{
  ℕ, ◌+◌, ◌≡◌, ◌≢◌, refl, subst, sym, ◌∙◌, inl, inr, String, List, [], ◌∷◌, false, Option-cases,
  lookup, insert, lookup-erase_self, string_key,
}
use daytradebot.Decimal.{Decimal}
use daytradebot.Domain.Market.{Candle}
use daytradebot.Domain.Orders.{Order}
use daytradebot.Domain.Trades.{ExitReason}
use daytradebot.Broker.State.{order_id_key, SimulatedState, SimulatedBrokerConfig}
use daytradebot.Broker.Prices.{mark, book_exit, set_market_price, close_position_at_market}
use daytradebot.Broker.Costs.{apply_slippage}
use daytradebot.Broker.Market.{tick, enter_at_candle, set_market_candle}
use daytradebot.Broker.Orders.{place_order, cancel_order}
use daytradebot.Broker.Fits.{IsExclusive}
use daytradebot.Broker.Lifecycle.{
  Phase, flat, holding, Operation, see_candle, see_price, leave_at_market, place, cancel, Leave,
  Place, Step, candle_seen, price_seen, left_at_market, not_held, placed, Run, ended, went_on,
  phase_of, trades_of, Leaves, is_holding, is_flat, is_not_holding, no_entry, same_phase,
}
use daytradebot.Broker.Exclusion.{
  set_market_candle-IsExclusive, set_market_price-IsExclusive, close_position_at_market-IsExclusive,
}
use daytradebot.Broker.Placing.{place_order-IsExclusive, cancel_order-IsExclusive}
use daytradebot.Broker.Lifecycle.Exits.{
  book_exit-trades, mark-phase, mark-trades, exit_at_candle-Leaves, exit_at_price-Leaves,
}
use daytradebot.Broker.Lifecycle.Entries.{enter_at_candle-Enters}
use daytradebot.Broker.Lifecycle.Placing.{place_order-Places, cancel_order-Step}
use daytradebot.Broker.Exclusion.{mark-IsExclusive, enter_at_candle-IsExclusive}

module _ {D : Type 0} ⦃d : Decimal D⦄ (cfg : SimulatedBrokerConfig D) (k : String) where
  -- The broker under an operation, with the prices of the symbol `k`.
  unfoldable pub drive : Operation D → SimulatedState D → SimulatedState D
  drive (see_candle c) st = set_market_candle cfg k c st
  drive (see_price v t) st = set_market_price cfg k v t st
  drive (leave_at_market v reason) st = (close_position_at_market cfg k v reason st).0
  drive (place nanos o) st = (place_order cfg nanos o st).0
  drive (cancel id t) st = (cancel_order id t st).0

  unfoldable pub drive_all : List (Operation D) → SimulatedState D → SimulatedState D
  drive_all [] st = st
  drive_all (x ∷ xs) st = drive_all xs (drive x st)

  drive-IsExclusive :
      (x : Operation D) (st : SimulatedState D) → IsExclusive st → IsExclusive (drive x st)
  unfolding drive
  drive-IsExclusive (see_candle c) st h = set_market_candle-IsExclusive cfg k c st h
  drive-IsExclusive (see_price v t) st h = set_market_price-IsExclusive cfg k v t st h
  drive-IsExclusive (leave_at_market v reason) st h =
      close_position_at_market-IsExclusive cfg k v reason st h
  drive-IsExclusive (place nanos o) st h = place_order-IsExclusive cfg nanos o st h
  drive-IsExclusive (cancel id t) st h = cancel_order-IsExclusive id t st h

  abbrev Steps : Operation D → SimulatedState D → SimulatedState D → Type 0
  Steps x st st' = Step x (phase_of k st) (trades_of st) (phase_of k st') (trades_of st')

  marked-Leaves :
      (v : D) (n : ℕ) (st st' : SimulatedState D)
      → n ≡ trades_of st
      → Leaves k (mark k v st) st'
      → Leave (phase_of k st) n (phase_of k st') (trades_of st')
  marked-Leaves v n st st' e l =
      subst (λ a. Leave a n (phase_of k st') (trades_of st')) (mark-phase k v st)
        (subst (λ m. Leave (phase_of k (mark k v st)) m (phase_of k st') (trades_of st'))
          (mark-trades k v st ∙ sym e) l)

  set_market_candle-Steps :
      (c : Candle D) (st : SimulatedState D)
      → IsExclusive st
      → Steps (see_candle c) st (set_market_candle cfg k c st)
  unfolding set_market_candle phase_of
  set_market_candle-Steps c st h =
      let st' = tick k c st in
      let (enter, same) = enter_at_candle-Enters cfg k c st' h in
      let h' = enter_at_candle-IsExclusive cfg k c st' h in
      candle_seen enter (
        marked-Leaves c.close (trades_of st) (enter_at_candle cfg k c st')
          (set_market_candle cfg k c st) same
          (exit_at_candle-Leaves cfg k c _ (mark-IsExclusive k c.close _ h')))

  set_market_price-Steps :
      (v : D) (t : ℕ) (st : SimulatedState D)
      → IsExclusive st
      → Steps (see_price v t) st (set_market_price cfg k v t st)
  unfolding set_market_price phase_of
  set_market_price-Steps v t st h =
      let st' : SimulatedState D = record st { market_prices = insert k v st.market_prices } in
      price_seen (
        marked-Leaves v (trades_of st) st' (set_market_price cfg k v t st) refl
          (exit_at_price-Leaves cfg k v t _ (mark-IsExclusive k v st' h)))

  market_leave :
      {v : D} {reason : ExitReason} {a b : Phase} {n m : ℕ}
      → a ≡ holding
      → b ≡ flat
      → m ≡ n + 1
      → Step (leave_at_market v reason) a n b m
  market_leave e f h = rw (e, f) (left_at_market h)

  unheld :
      {v : D} {reason : ExitReason} {a b : Phase} {n : ℕ}
      → a ≢ holding
      → a ≡ b
      → Step (leave_at_market v reason) a n b n
  unheld h e = rw (sym e) (not_held h)

  close_position_at_market-Steps :
      (v : D) (reason : ExitReason) (st : SimulatedState D)
      → IsExclusive st
      → Steps (leave_at_market v reason) st (close_position_at_market cfg k v reason st).0
  unfolding close_position_at_market book_exit
  close_position_at_market-Steps v reason st h = elim (Option-cases (lookup k st.positions)) [
    | inl n ↦
        rw (n, close_position_at_market)
          (unheld (is_not_holding k st n) (same_phase k st _ refl refl))
    | inr (p, held) ↦
        rw (held, close_position_at_market)
          (market_leave (is_holding k st p held)
            (is_flat k _ (lookup-erase_self k st.positions) (no_entry k st p h held))
            (book_exit-trades cfg k p (apply_slippage v p.direction false cfg.slippage_pct) reason
              st.now st))
  ]

  placed_by :
      {i : ℕ} {o : Order D} {a b : Phase} {n m : ℕ} → Place a b × (n ≡ m) → Step (place i o) a n b m
  placed_by (h, e) = placed h e

  drive-Steps : (x : Operation D) (st : SimulatedState D) → IsExclusive st → Steps x st (drive x st)
  unfolding drive
  drive-Steps (see_candle c) st h = set_market_candle-Steps c st h
  drive-Steps (see_price v t) st h = set_market_price-Steps v t st h
  drive-Steps (leave_at_market v reason) st h = close_position_at_market-Steps v reason st h
  drive-Steps (place nanos o) st h = placed_by (place_order-Places k cfg nanos o st)
  drive-Steps (cancel id t) st h = cancel_order-Step k id t st h

  -- Where no symbol has a position and a waiting entry together, and exits wait only where there
  -- is a position, the phase of a symbol and the number of trades follow the machine through any
  -- operations with prices of that symbol and orders for any symbol: a placed order takes it
  -- from flat to awaiting or holding, a candle fills or drops a waiting entry, a cancellation
  -- drops it, and a position is left for flat with exactly one trade more.
  pub drive_all-Run :
      (xs : List (Operation D)) (st : SimulatedState D)
      → IsExclusive st
      → Run xs
          (phase_of k st)
          (trades_of st)
          (phase_of k (drive_all xs st))
          (trades_of (drive_all xs st))
  unfolding drive_all
  drive_all-Run [] st h = ended
  drive_all-Run (x ∷ xs) st h =
      went_on (drive-Steps x st h) (drive_all-Run xs (drive x st) (drive-IsExclusive x st h))
