-- ===== src/Broker/Lifecycle/Entries.antt =====
-- A candle over a waiting entry: it stays, goes or fills, and no trade is counted.
use daytradebot.Base.{
  ◌+◌, ◌≡◌, refl, sym, ◌∙◌, inl, inr, String, none, some, Bool-cases, Option-cases, lookup, erase,
  lookup-insert_self, lookup-erase_self, string_key, not, ◌&&◌,
}
use daytradebot.Decimal.{Decimal, le}
use daytradebot.Domain.Market.{Candle}
use daytradebot.Domain.Orders.{stop_entry_expired}
use daytradebot.Domain.Trades.{new_position}
use daytradebot.Broker.State.{order_id_key, PendingEntry, SimulatedState, SimulatedBrokerConfig}
use daytradebot.Broker.Market.{is_triggered, is_overshot, fill_entry, work_entry, enter_at_candle}
use daytradebot.Broker.Fits.{IsExclusive, no_position}
use daytradebot.Broker.Lifecycle.{
  Enter, keeps, lapsed, entered, kept_on, phase_of, trades_of, is_holding, is_flat, is_awaiting,
}

module _ {D : Type 0} ⦃d : Decimal D⦄ where
  abbrev pub Enters : String → SimulatedState D → SimulatedState D → Type 0
  Enters k st st' = Enter (phase_of k st) (phase_of k st') × (trades_of st ≡ trades_of st')

  fill_entry-Enters :
      (cfg : SimulatedBrokerConfig D) (k : String) (e : PendingEntry D) (c : Candle D)
      (st : SimulatedState D)
      → lookup k st.positions ≡ none
      → lookup k st.pending_entries ≡ some e
      → Enters k st
          (fill_entry cfg k e c (record st { pending_entries = erase k st.pending_entries }))
  unfolding fill_entry new_position
  fill_entry-Enters cfg k e c st n w = elim (Bool-cases (le e.quantity d.nought)) [
    | inl empty ↦
        rw (empty, fill_entry, new_position)
          (
            lapsed (is_awaiting k st e n w)
                (is_flat k _ n (lookup-erase_self k st.pending_entries)),
            refl,
          )
    | inr full ↦
        rw (full, fill_entry, new_position)
          (
            entered (is_awaiting k st e n w)
                (is_holding k _ _ (lookup-insert_self k _ st.positions)),
            refl,
          )
  ]

  work_entry-Enters :
      (cfg : SimulatedBrokerConfig D) (k : String) (c : Candle D) (e : PendingEntry D)
      (st : SimulatedState D)
      → lookup k st.positions ≡ none
      → lookup k st.pending_entries ≡ some e
      → Enters k st (work_entry cfg k c e st)
  unfolding work_entry
  work_entry-Enters cfg k c e st n w =
      let was = is_awaiting k st e n w in
      let expired =
        not (is_triggered e c)
        && stop_entry_expired (e.candles_waiting + 1) cfg.entry_validity_candles in
      elim (Bool-cases expired) [
        | inl x ↦
            rw (x, work_entry)
              (lapsed was (is_flat k _ n (lookup-erase_self k st.pending_entries)), refl)
        | inr x ↦
            rw (x, work_entry)
              (elim (Bool-cases (is_triggered e c)) [
                | inr waits ↦
                    rw (waits, work_entry)
                      (
                        kept_on (
                            was
                            ∙ sym
                                (is_awaiting k _ _ n (lookup-insert_self k _ st.pending_entries))),
                        refl,
                      )
                | inl runs ↦
                    rw (runs, work_entry)
                      (elim (Bool-cases (is_overshot cfg e c)) [
                        | inl off ↦
                            rw (off, work_entry)
                              (
                                lapsed was (is_flat k _ n (lookup-erase_self k st.pending_entries)),
                                refl,
                              )
                        | inr fills ↦ rw (fills, work_entry) (fill_entry-Enters cfg k e c st n w)
                      ])
              ])
      ]

  pub enter_at_candle-Enters :
      (cfg : SimulatedBrokerConfig D) (k : String) (c : Candle D) (st : SimulatedState D)
      → IsExclusive st
      → Enters k st (enter_at_candle cfg k c st)
  unfolding enter_at_candle
  enter_at_candle-Enters cfg k c st h = elim (Option-cases (lookup k st.pending_entries)) [
    | inl e ↦ rw (e, enter_at_candle) (keeps, refl)
    | inr (entry, e) ↦
        rw (e, enter_at_candle) (work_entry-Enters cfg k c entry st (no_position k st h entry e) e)
  ]
