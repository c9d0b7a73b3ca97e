-- ===== src/Broker/Entries.antt =====
-- How long a stop entry waits, and at what price it fills.
use daytradebot.Base.{
  ◌+◌, ◌<◌, ◌≡◌, inl, inr, String, true, false, if◌then◌else◌, Option, none, some, arith,
  Bool-cases, Option-cases, subst, lookup, erase, lookup-erase_self, lookup-insert_self, string_key,
}
use daytradebot.Decimal.{Decimal, ◌≼◌, le, min, IsOrdered, IsRounded, le-max_right, min-le_right}
use daytradebot.Domain.Market.{Candle}
use daytradebot.Domain.Signals.{Direction, long, short}
use daytradebot.Domain.Orders.{stop_entry_expired}
use daytradebot.Domain.Trades.{Position, new_position}
use daytradebot.Broker.State.{SimulatedState, SimulatedBrokerConfig, PendingEntry}
use daytradebot.Broker.Costs.{apply_slippage}
use daytradebot.Broker.Prices.{mark, book_exit}
use daytradebot.Broker.Market.{
  is_triggered, fill_base, tick, fill_entry, work_entry, enter_at_candle, exit_at_candle,
  set_market_candle,
}

module _ {D : Type 0} ⦃d : Decimal D⦄ (cfg : SimulatedBrokerConfig D) (k : String)
    (c : Candle D) where
  abbrev waiting_of : SimulatedState D → Option (PendingEntry D)
  waiting_of st = lookup k st.pending_entries

  mark-pending_entries :
      (price : D) (st : SimulatedState D) → (mark k price st).pending_entries ≡ st.pending_entries
  unfolding mark
  mark-pending_entries price st = ground arith

  exit_at_candle-pending_entries :
      (st : SimulatedState D) → (exit_at_candle cfg k c st).pending_entries ≡ st.pending_entries
  unfolding exit_at_candle book_exit
  exit_at_candle-pending_entries st = ground arith

  fill_entry-pending_entries :
      (e : PendingEntry D) (st : SimulatedState D)
      → (fill_entry cfg k e c st).pending_entries ≡ st.pending_entries
  unfolding fill_entry
  fill_entry-pending_entries e st = ground arith

  set_market_candle-pending_entries :
      (st : SimulatedState D)
      → (set_market_candle cfg k c st).pending_entries
        ≡ (enter_at_candle cfg k c (tick k c st)).pending_entries
  unfolding set_market_candle
  set_market_candle-pending_entries st = rw (
    exit_at_candle-pending_entries (mark k c.close (enter_at_candle cfg k c (tick k c st))),
    mark-pending_entries c.close (enter_at_candle cfg k c (tick k c st)),
  )

  -- Where an entry is left after being worked, it has counted the candle and is not expired.
  work_entry_waits :
      (e : PendingEntry D) (st : SimulatedState D) {w : PendingEntry D}
      → waiting_of (work_entry cfg k c e st) ≡ some w
      → w.candles_waiting < cfg.entry_validity_candles
  unfolding work_entry stop_entry_expired
  work_entry_waits e st {w} h = ground (
    arith,
    lookup-erase_self k st.pending_entries,
    lookup-insert_self k (record e { candles_waiting = e.candles_waiting + 1 }) st.pending_entries,
    fill_entry-pending_entries e (record st { pending_entries = erase k st.pending_entries }),
  )

  enter_at_candle_waits :
      (st : SimulatedState D) {w : PendingEntry D}
      → waiting_of (enter_at_candle cfg k c st) ≡ some w
      → w.candles_waiting < cfg.entry_validity_candles
  unfolding enter_at_candle
  enter_at_candle_waits st {w} h = elim (Option-cases (lookup k st.pending_entries)) [
    | inl idle ↦ cc (rw (idle, enter_at_candle) at h)
    | inr (e, waits) ↦ work_entry_waits e st (rw (waits, enter_at_candle) at h)
  ]

  -- After a candle, an entry that still waits for its trigger has waited for fewer candles than the
  -- validity of the configuration, whatever the state was before.
  pub set_market_candle_waits :
      (st : SimulatedState D) {w : PendingEntry D}
      → lookup k (set_market_candle cfg k c st).pending_entries ≡ some w
      → w.candles_waiting < cfg.entry_validity_candles
  set_market_candle_waits st h =
      enter_at_candle_waits (tick k c st) (rw (set_market_candle-pending_entries st) at h)

  -- A price no better for the trader than another: not below it to buy, not above it to sell.
  abbrev pub IsNoBetter : Direction → D → D → Type 0
  IsNoBetter long price trigger = trigger ≼ price
  IsNoBetter short price trigger = price ≼ trigger

  module _ (order : IsOrdered D) (rounds : IsRounded D) where
    fill-IsNoBetter :
        (dir : Direction) (opening trigger slippage : D)
        → d.nought ≼ opening
        → d.nought ≼ trigger
        → d.nought ≼ slippage
        → IsNoBetter dir (apply_slippage (fill_base dir opening trigger) dir true slippage) trigger
    unfolding apply_slippage
    fill-IsNoBetter long opening trigger slippage o t s =
        let above = le-max_right order opening trigger in
        order.le_trans _ _ _ above
          (rounds.le_mul _ _ (order.le_trans _ _ _ t above) (rounds.le_add d.unity slippage s))
    fill-IsNoBetter short opening trigger slippage o t s =
        order.le_trans _ _ _
          (rounds.div_le (min opening trigger) _ (ground arith) (rounds.le_add d.unity slippage s))
          (min-le_right order opening trigger)

    fill_entry-price :
        (e : PendingEntry D) (st : SimulatedState D) {p : Position D}
        → lookup k st.positions ≡ none
        → lookup k (fill_entry cfg k e c st).positions ≡ some p
        → p.avg_entry_price
          ≡ apply_slippage
              (fill_base e.direction c.«open» e.trigger_price)
              e.direction
              true
              cfg.slippage_pct
    unfolding fill_entry new_position
    fill_entry-price e st {p} free h = elim (Bool-cases (le e.quantity d.nought)) [
      | inl empty ↦ cc (rw (empty, fill_entry, new_position) at h)
      | inr full ↦
          let same =
            rw (lookup-insert_self k _ st.positions) at
              (rw (full, fill_entry, new_position) at h) in
          cc
    ]

    work_entry-price :
        (e : PendingEntry D) (st : SimulatedState D) {p : Position D}
        → lookup k st.positions ≡ none
        → lookup k (work_entry cfg k c e st).positions ≡ some p
        → p.avg_entry_price
          ≡ apply_slippage
              (fill_base e.direction c.«open» e.trigger_price)
              e.direction
              true
              cfg.slippage_pct
    unfolding work_entry
    work_entry-price e st {p} free h = ground (
      arith,
      fill_entry-price e (record st { pending_entries = erase k st.pending_entries }) {p = p} free,
    )

    exit_at_candle-position :
        (st : SimulatedState D) {p : Position D}
        → lookup k (exit_at_candle cfg k c st).positions ≡ some p
        → lookup k st.positions ≡ some p
    unfolding exit_at_candle book_exit
    exit_at_candle-position st h = ground (arith, lookup-erase_self k st.positions)

    mark-position :
        (price : D) (st : SimulatedState D) {p : Position D}
        → lookup k (mark k price st).positions ≡ some p
        → (q : Position D) × ((lookup k st.positions ≡ some q)
            × (q.avg_entry_price ≡ p.avg_entry_price))
    unfolding mark
    mark-position price st {p} h = elim (Option-cases (lookup k st.positions)) [
      | inl free ↦ cc (rw (free, mark) at h)
      | inr (q, held) ↦
          let same = rw (lookup-insert_self k _ st.positions) at (rw (held, mark) at h) in
          (q, (held, cc))
    ]

    enter_at_candle_works :
        (e : PendingEntry D) (st : SimulatedState D)
        → lookup k st.pending_entries ≡ some e
        → enter_at_candle cfg k c st ≡ work_entry cfg k c e st
    unfolding enter_at_candle
    enter_at_candle_works e st waits = rw (waits, enter_at_candle)

    -- If a symbol has a waiting entry and no position before a candle, and a position after it, with an
    -- open, a trigger and a slippage that are not negative, then that position was entered at a price
    -- no better than the trigger: a long not below it, a short not above it.
    pub set_market_candle-IsNoBetter :
        (e : PendingEntry D) (st : SimulatedState D) {p : Position D}
        → d.nought ≼ c.«open»
        → d.nought ≼ e.trigger_price
        → d.nought ≼ cfg.slippage_pct
        → lookup k st.pending_entries ≡ some e
        → lookup k st.positions ≡ none
        → lookup k (set_market_candle cfg k c st).positions ≡ some p
        → IsNoBetter e.direction p.avg_entry_price e.trigger_price
    unfolding set_market_candle
    set_market_candle-IsNoBetter e st {p} o t s waits free h =
        let (q, (held, same)) = mark-position c.close _ (exit_at_candle-position _ h) in
        let entered = work_entry-price e (tick k c st) free (
          subst (λ x. lookup k x.positions ≡ some q) (enter_at_candle_works e (tick k c st) waits)
            held) in
        subst (λ a. IsNoBetter e.direction a e.trigger_price) (cc (same, entered))
          (fill-IsNoBetter e.direction c.«open» e.trigger_price cfg.slippage_pct o t s)

  -- An entry that a candle does not trigger is one candle older, or gone.
  abbrev pub aged : PendingEntry D → Option (PendingEntry D)
  aged e =
      if stop_entry_expired (e.candles_waiting + 1) cfg.entry_validity_candles
      then none
      else some (record e { candles_waiting = e.candles_waiting + 1 })

  work_entry_untriggered :
      (e : PendingEntry D) (st : SimulatedState D)
      → is_triggered e c ≡ false
      → waiting_of (work_entry cfg k c e st) ≡ aged e
  unfolding work_entry
  work_entry_untriggered e st h = ground (
    arith,
    h,
    lookup-erase_self k st.pending_entries,
    lookup-insert_self k (record e { candles_waiting = e.candles_waiting + 1 }) st.pending_entries,
  )

  pub set_market_candle_untriggered :
      (e : PendingEntry D) (st : SimulatedState D)
      → waiting_of st ≡ some e
      → is_triggered e c ≡ false
      → waiting_of (set_market_candle cfg k c st) ≡ aged e
  unfolding enter_at_candle
  set_market_candle_untriggered e st w h =
      rw (set_market_candle-pending_entries st, enter_at_candle, w)
        (work_entry_untriggered e (tick k c st) h)

  pub set_market_candle_nothing_waits :
      (st : SimulatedState D)
      → waiting_of st ≡ none
      → waiting_of (set_market_candle cfg k c st) ≡ none
  unfolding enter_at_candle
  set_market_candle_nothing_waits st w =
      rw (set_market_candle-pending_entries st, enter_at_candle, w) w
