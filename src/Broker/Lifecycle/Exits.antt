-- ===== src/Broker/Lifecycle/Exits.antt =====
-- Marks and exits of the simulated broker: a position stays, or it is left and counted as a trade.
use daytradebot.Base.{
  ℕ, ◌+◌, ◌≡◌, refl, sym, ◌∙◌, inl, inr, String, some, [], ◌∷◌, length-append, arith, Option-cases,
  lookup, lookup-insert_self, lookup-erase_self, string_key,
}
use daytradebot.Decimal.{Decimal}
use daytradebot.Domain.Market.{Candle}
use daytradebot.Domain.Trades.{ExitReason, Position}
use daytradebot.Broker.State.{order_id_key, SimulatedState, SimulatedBrokerConfig}
use daytradebot.Broker.Prices.{mark, price_hit, exit_at_price, book_exit}
use daytradebot.Broker.Market.{candle_hit, exit_at_candle}
use daytradebot.Broker.Fits.{IsExclusive}
use daytradebot.Broker.Lifecycle.{
  remains, gone, phase_of, trades_of, Leaves, is_holding, is_flat, no_entry,
}

module _ {D : Type 0} ⦃d : Decimal D⦄ where
  pub book_exit-trades :
      (cfg : SimulatedBrokerConfig D) (k : String) (p : Position D) (paid : D) (reason : ExitReason)
      (t : ℕ) (st : SimulatedState D)
      → trades_of (book_exit cfg k p paid reason t st) ≡ trades_of st + 1
  unfolding book_exit
  book_exit-trades cfg k p paid reason t st = omega (arith, length-append st.closed_trades (_ ∷ []))

  pub book_exit-Leaves :
      (cfg : SimulatedBrokerConfig D) (k : String) (p q : Position D) (paid : D)
      (reason : ExitReason) (t : ℕ) (st : SimulatedState D)
      → IsExclusive st
      → lookup k st.positions ≡ some q
      → Leaves k st (book_exit cfg k p paid reason t st)
  unfolding book_exit
  book_exit-Leaves cfg k p q paid reason t st h held =
      gone (is_holding k st q held)
        (is_flat k _ (lookup-erase_self k st.positions) (no_entry k st q h held))
        (book_exit-trades cfg k p paid reason t st)

  pub mark-phase :
      (k : String) (v : D) (st : SimulatedState D) → phase_of k (mark k v st) ≡ phase_of k st
  unfolding mark
  mark-phase k v st = elim (Option-cases (lookup k st.positions)) [
    | inl e ↦ rw (e, mark) refl
    | inr (p, e) ↦
        rw (e, mark)
          (is_holding k _ _ (lookup-insert_self k _ st.positions) ∙ sym (is_holding k st p e))
  ]

  pub mark-trades :
      (k : String) (v : D) (st : SimulatedState D) → trades_of (mark k v st) ≡ trades_of st
  unfolding mark
  mark-trades k v st = ground arith

  pub exit_at_candle-Leaves :
      (cfg : SimulatedBrokerConfig D) (k : String) (c : Candle D) (st : SimulatedState D)
      → IsExclusive st
      → Leaves k st (exit_at_candle cfg k c st)
  unfolding exit_at_candle
  exit_at_candle-Leaves cfg k c st h = elim (Option-cases (lookup k st.pending_exits)) [
    | inl e ↦ rw (e, exit_at_candle) (remains refl)
    | inr (exit, e) ↦
        rw (e, exit_at_candle)
          (elim (Option-cases (lookup k st.positions)) [
            | inl n ↦ rw (n, exit_at_candle) (remains refl)
            | inr (p, held) ↦
                rw (held, exit_at_candle)
                  (elim (Option-cases (candle_hit cfg p.direction exit c)) [
                    | inl n ↦ rw (n, exit_at_candle) (remains refl)
                    | inr (hit, hits) ↦
                        rw (hits, exit_at_candle)
                          (book_exit-Leaves cfg k p p hit.0 hit.1 st.now st h held)
                  ])
          ])
  ]

  pub exit_at_price-Leaves :
      (cfg : SimulatedBrokerConfig D) (k : String) (v : D) (t : ℕ) (st : SimulatedState D)
      → IsExclusive st
      → Leaves k st (exit_at_price cfg k v t st)
  unfolding exit_at_price
  exit_at_price-Leaves cfg k v t st h = elim (Option-cases (lookup k st.pending_exits)) [
    | inl e ↦ rw (e, exit_at_price) (remains refl)
    | inr (exit, e) ↦
        rw (e, exit_at_price)
          (elim (Option-cases (price_hit exit v)) [
            | inl n ↦ rw (n, exit_at_price) (remains refl)
            | inr (reason, hits) ↦
                rw (hits, exit_at_price)
                  (elim (Option-cases (lookup k st.positions)) [
                    | inl n ↦ rw (n, exit_at_price) (remains refl)
                    | inr (p, held) ↦
                        rw (held, exit_at_price) (book_exit-Leaves cfg k p p v reason t st h held)
                  ])
          ])
  ]
