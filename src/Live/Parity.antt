-- ===== src/Live/Parity.antt =====
-- The live worker and the simulated broker drop a stop entry at the same candle: both follow one
-- count of the candles it has waited.
use daytradebot.Base.{
  ℕ, ◌+◌, ◌≡◌, ◌∙◌, refl, sym, ap, subst, zero, suc, String, Bool, true, false, Option, none, some,
  List, [], ◌∷◌, length, All, if◌then◌else◌, lookup, string_key, Bool-cases, inl, inr,
}
use daytradebot.Decimal.{Decimal}
use daytradebot.Domain.Market.{Candle}
use daytradebot.Domain.Orders.{EntryOrderType, stop_entry_expired}
use daytradebot.TradeTracker.{is_open}
use daytradebot.Broker.{
  Result, ok, err, is_some, SimulatedState, SimulatedBrokerConfig, PendingEntry, is_triggered,
  set_market_candle,
}
use daytradebot.Broker.Entries.{set_market_candle_untriggered, set_market_candle_nothing_waits}
use daytradebot.Live.State.{LiveBroker, LiveFillState, PlacedOrderInfo, is_empty}
use daytradebot.Live.Expiry.{
  MarkCancelled, expire_stale_stop_entry, after_cancel, expire_by_type, expire_order,
  expire_waiting,
}

-- Whether an entry that has waited some candles is still there after more of them.
abbrev pub survives : ℕ → ℕ → ℕ → Bool
survives validity waited zero = true
survives validity waited (suc n) =
    if stop_entry_expired (waited + 1) validity then false else survives validity (waited + 1) n

module _ {D W : Type 0} ⦃d : Decimal D⦄ (b : LiveBroker W D) (mark : MarkCancelled W)
    (validity : ℕ) where
  -- The worker over several candles.
  unfoldable pub expire_over : ℕ → LiveFillState D → W → W × LiveFillState D
  expire_over zero s w = (w, s)
  expire_over (suc n) s w =
      let r = expire_stale_stop_entry b mark validity s w in expire_over n r.1.0 r.0

  expire_stale_stop_entry_nothing :
      (s : LiveFillState D) (w : W)
      → s.open_order ≡ none
      → (expire_stale_stop_entry b mark validity s w).1.0.open_order ≡ none
  unfolding expire_stale_stop_entry
  expire_stale_stop_entry_nothing s w h = elim (Bool-cases (is_open s.tracker)) [
    | inl e ↦ rw e h
    | inr e ↦
        rw e (subst (λ o. (expire_order b mark validity s o w).1.0.open_order ≡ none) (sym h) h)
  ]

  expire_over_nothing :
      (n : ℕ) (s : LiveFillState D) (w : W)
      → s.open_order ≡ none
      → (expire_over n s w).1.open_order ≡ none
  unfolding expire_over
  expire_over_nothing zero s w h = h
  expire_over_nothing (suc n) s w h =
      let r = expire_stale_stop_entry b mark validity s w in
      expire_over_nothing n r.1.0 r.0 (expire_stale_stop_entry_nothing s w h)

  after_cancel_accepted :
      (s : LiveFillState D) (p : PlacedOrderInfo D) (r : W × Result (Unit {0}))
      → r.1 ≡ ok tt
      → (after_cancel b mark validity s p r).1.0 ≡ (record s { open_order = none })
  after_cancel_accepted s p (w, ok _) h = refl
  after_cancel_accepted s p (w, err _) h = cc

  -- The entry a candle later, with the count that decides it.
  abbrev pub waited_on : LiveFillState D → PlacedOrderInfo D → LiveFillState D
  waited_on s p = record s {
    open_order =
        if stop_entry_expired (p.candles_waited + 1) validity
        then none
        else some (record p { candles_waited = p.candles_waited + 1 });
  }

  expire_waiting_step :
      (s : LiveFillState D) (p : PlacedOrderInfo D) (w : W)
      → ((id : String) (v : W) → (b.cancel id v).1 ≡ ok tt)
      → is_empty p.broker_order_id ≡ false
      → (expire_waiting b mark validity s p w).1.0 ≡ waited_on s p
  expire_waiting_step s p w accepts id =
      elim (Bool-cases (stop_entry_expired (p.candles_waited + 1) validity)) [
        | inl gone ↦
            rw (gone, id)
              (after_cancel_accepted s (record p { candles_waited = p.candles_waited + 1 })
                (b.cancel p.broker_order_id w) (accepts p.broker_order_id w))
        | inr stays ↦ rw stays refl
      ]

  expire_stale_stop_entry_step :
      (s : LiveFillState D) (p : PlacedOrderInfo D) (w : W)
      → ((id : String) (v : W) → (b.cancel id v).1 ≡ ok tt)
      → is_open s.tracker ≡ false
      → s.open_order ≡ some p
      → p.entry_order_type ≡ EntryOrderType.stop
      → is_empty p.broker_order_id ≡ false
      → (expire_stale_stop_entry b mark validity s w).1.0 ≡ waited_on s p
  unfolding expire_stale_stop_entry
  expire_stale_stop_entry_step s p w accepts shut tracked entry id =
      let step = expire_waiting_step s p w accepts id in
      rw shut (
        subst (λ o. (expire_order b mark validity s o w).1.0 ≡ waited_on s p) (sym tracked)
          (subst (λ t. (expire_by_type b mark validity s p w t).1.0 ≡ waited_on s p) (sym entry)
            step))

  expire_over-survives :
      (n : ℕ) (s : LiveFillState D) (p : PlacedOrderInfo D) (w : W)
      → ((id : String) (v : W) → (b.cancel id v).1 ≡ ok tt)
      → is_open s.tracker ≡ false
      → s.open_order ≡ some p
      → p.entry_order_type ≡ EntryOrderType.stop
      → is_empty p.broker_order_id ≡ false
      → is_some (expire_over n s w).1.open_order ≡ survives validity p.candles_waited n
  unfolding expire_over
  expire_over-survives zero s p w accepts shut tracked entry id = rw tracked refl
  expire_over-survives (suc n) s p w accepts shut tracked entry id =
      let next = expire_stale_stop_entry_step s p w accepts shut tracked entry id in
      let v = (expire_stale_stop_entry b mark validity s w).0 in
      let older : PlacedOrderInfo D = record p { candles_waited = p.candles_waited + 1 } in
      elim (Bool-cases (stop_entry_expired (p.candles_waited + 1) validity)) [
        | inl gone ↦
            let order = ap (λ e. if e then none else some older) gone in
            rw (expire_over, next, expire_over_nothing n (waited_on s p) v order, gone) refl
        | inr stays ↦
            rw (expire_over, next, stays)
              (expire_over-survives n (record s { open_order = some older }) older v accepts shut
                refl entry id)
      ]

module _ {D : Type 0} ⦃d : Decimal D⦄ (cfg : SimulatedBrokerConfig D) (k : String) where
  -- The simulated broker over several candles.
  abbrev pub market_over : List (Candle D) → SimulatedState D → SimulatedState D
  market_over [] st = st
  market_over (c ∷ cs) st = market_over cs (set_market_candle cfg k c st)

  market_over_nothing :
      (cs : List (Candle D)) (st : SimulatedState D)
      → lookup k st.pending_entries ≡ none
      → lookup k (market_over cs st).pending_entries ≡ none
  market_over_nothing [] st h = h
  market_over_nothing (c ∷ cs) st h =
      market_over_nothing cs (set_market_candle cfg k c st)
        (set_market_candle_nothing_waits cfg k c st h)

  abbrev older : PendingEntry D → Bool → Option (PendingEntry D)
  older e gone = if gone then none else some (record e { candles_waiting = e.candles_waiting + 1 })

  market_over-survives :
      (cs : List (Candle D)) (st : SimulatedState D) (e : PendingEntry D)
      → lookup k st.pending_entries ≡ some e
      → All (λ c. is_triggered e c ≡ false) cs
      → is_some (lookup k (market_over cs st).pending_entries)
        ≡ survives cfg.entry_validity_candles e.candles_waiting (length cs)
  market_over-survives [] st e h all = rw h refl
  market_over-survives (c ∷ cs) st e h (one, all) =
      let next = set_market_candle_untriggered cfg k c e st h one in
      elim (Bool-cases (stop_entry_expired (e.candles_waiting + 1) cfg.entry_validity_candles)) [
        | inl gone ↦
            rw
              (
                gone,
                market_over_nothing cs (set_market_candle cfg k c st) (next ∙ ap (older e) gone),
              )
              refl
        | inr stays ↦ rw stays (
            market_over-survives cs (set_market_candle cfg k c st)
              (record e { candles_waiting = e.candles_waiting + 1 }) (next ∙ ap (older e) stays)
              all)
      ]

-- Over candles that never trigger a stop entry, the live worker drops it at the same candle as the
-- simulated broker does: where both start with the same count of candles waited and the same
-- validity, the worker knows its order at the broker, holds no position, and every cancellation is
-- accepted, the worker tracks the entry after the candles exactly when the simulated broker still
-- has it waiting.
pub expire_stale_stop_entry_parity :
    {D W : Type 0} ⦃d : Decimal D⦄ (b : LiveBroker W D) (mark : MarkCancelled W)
    (cfg : SimulatedBrokerConfig D) (k : String) (cs : List (Candle D)) (st : SimulatedState D)
    (e : PendingEntry D) (s : LiveFillState D) (p : PlacedOrderInfo D) (w : W)
    → lookup k st.pending_entries ≡ some e
    → All (λ c. is_triggered e c ≡ false) cs
    → p.candles_waited ≡ e.candles_waiting
    → ((id : String) (v : W) → (b.cancel id v).1 ≡ ok tt)
    → is_open s.tracker ≡ false
    → s.open_order ≡ some p
    → p.entry_order_type ≡ EntryOrderType.stop
    → is_empty p.broker_order_id ≡ false
    → is_some (expire_over b mark cfg.entry_validity_candles (length cs) s w).1.open_order
      ≡ is_some (lookup k (market_over cfg k cs st).pending_entries)
expire_stale_stop_entry_parity b mark cfg k cs st e s p w waits quiet same accepts shut tracked
      entry id =
    let live =
      expire_over-survives b mark cfg.entry_validity_candles (length cs) s p w accepts shut tracked
        entry id in
    let simulated = market_over-survives cfg k cs st e waits quiet in
    live ∙ ap (λ n. survives cfg.entry_validity_candles n (length cs)) same ∙ sym simulated
