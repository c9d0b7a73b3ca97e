-- ===== src/Broker/Placing.antt =====
-- What cancelling and placing orders leave of the rule of one position or one waiting entry for a
-- symbol.
use daytradebot.Base.{
  ℕ, ◌≡◌, refl, ◌⊎◌, inl, inr, Option, none, some, Bool-cases, Option-cases, lookup, string_key,
}
use daytradebot.Decimal.{Decimal, le}
use daytradebot.Domain.Orders.{Order, OrderType, EntryOrderType, is_filled}
use daytradebot.Domain.Trades.{new_position}
use daytradebot.Broker.State.{
  OrderId, order_id_key, PendingExit, SimulatedState, SimulatedBrokerConfig,
}
use daytradebot.Broker.Orders.{
  open_position, await_entry, place_bracket, place_by_type, place_order, cancel_order,
}
use daytradebot.Broker.Fits.{IsExclusive, Fits-left, Fits-waiting, Fits-opened, Fits-bracketed}

pub entry-cases : (e : EntryOrderType) → (e ≡ EntryOrderType.stop) ⊎ (e ≡ EntryOrderType.limit)
entry-cases EntryOrderType.stop = inl refl
entry-cases EntryOrderType.limit = inr refl

module _ {D : Type 0} ⦃d : Decimal D⦄ where
  -- If no symbol has a position and a waiting entry together, and exits are pending only where there
  -- is a position, then this holds after a cancellation too, whether it is done or refused.
  pub cancel_order-IsExclusive :
      (id : OrderId) (t : ℕ) (st : SimulatedState D)
      → IsExclusive st
      → IsExclusive (cancel_order id t st).0
  unfolding cancel_order
  cancel_order-IsExclusive id t st h = elim (Option-cases (lookup id st.orders)) [
    | inl n ↦ rw (n, cancel_order) h
    | inr (o, e) ↦
        rw (e, cancel_order)
          (elim (Bool-cases (is_filled o)) [
            | inl done ↦ rw (done, cancel_order) h
            | inr open' ↦ rw (open', cancel_order) (Fits-left o.symbol st h)
          ])
  ]

  open_position-IsExclusive :
      (cfg : SimulatedBrokerConfig D) (id : OrderId) (o : Order D) (fill stop : D)
      (exits : Option (PendingExit D)) (st : SimulatedState D)
      → IsExclusive st
      → lookup o.symbol st.pending_entries ≡ none
      → IsExclusive (open_position cfg id o fill stop exits st).0
  unfolding open_position new_position
  open_position-IsExclusive cfg id o fill stop none st h n s =
      elim (Bool-cases (le o.quantity d.nought)) [
        | inl empty ↦ rw (empty, open_position, new_position) (h s)
        | inr full ↦ rw (full, open_position, new_position) (Fits-opened o.symbol st h _ n s)
      ]
  open_position-IsExclusive cfg id o fill stop (some x) st h n s =
      elim (Bool-cases (le o.quantity d.nought)) [
        | inl empty ↦ rw (empty, open_position, new_position) (h s)
        | inr full ↦ rw (full, open_position, new_position) (Fits-bracketed o.symbol st h _ x n s)
      ]

  await_entry-IsExclusive :
      (id : OrderId) (o : Order D) (x : PendingExit D) (st : SimulatedState D)
      → IsExclusive st
      → lookup o.symbol st.positions ≡ none
      → IsExclusive (await_entry id o x st).0
  unfolding await_entry
  await_entry-IsExclusive id o x st h n s = elim (Option-cases o.price) [
    | inl e ↦ rw (e, await_entry) (h s)
    | inr (trigger, e) ↦ rw (e, await_entry) (Fits-waiting o.symbol st h _ n s)
  ]

  place_bracket-IsExclusive :
      (cfg : SimulatedBrokerConfig D) (id : OrderId) (o : Order D) (st : SimulatedState D)
      → IsExclusive st
      → lookup o.symbol st.positions ≡ none
      → lookup o.symbol st.pending_entries ≡ none
      → IsExclusive (place_bracket cfg id o st).0
  unfolding place_bracket
  place_bracket-IsExclusive cfg id o st h n m = elim (Option-cases o.stop_price) [
    | inl e ↦ rw (e, place_bracket) h
    | inr (stop, e) ↦
        rw (e, place_bracket)
          (elim (Option-cases o.target_price) [
            | inl e' ↦ rw (e', place_bracket) h
            | inr (target, e') ↦
                rw (e', place_bracket)
                  (elim (entry-cases o.entry_order_type) [
                    | inl waits ↦ rw (waits, place_bracket) (await_entry-IsExclusive id o _ st h n)
                    | inr fills ↦
                        rw (fills, place_bracket)
                          (open_position-IsExclusive cfg id o _ stop (some _) st h m)
                  ])
          ])
  ]

  place_by_type-IsExclusive :
      (cfg : SimulatedBrokerConfig D) (id : OrderId) (o : Order D) (st : SimulatedState D)
      (kind : OrderType)
      → IsExclusive st
      → lookup o.symbol st.positions ≡ none
      → lookup o.symbol st.pending_entries ≡ none
      → IsExclusive (place_by_type cfg id o st kind).0
  unfolding place_by_type
  place_by_type-IsExclusive cfg id o st OrderType.market h n m =
      open_position-IsExclusive cfg id o _ _ none st h m
  place_by_type-IsExclusive cfg id o st OrderType.limit h n m =
      open_position-IsExclusive cfg id o _ _ none st h m
  place_by_type-IsExclusive cfg id o st OrderType.bracket h n m =
      place_bracket-IsExclusive cfg id o st h n m
  place_by_type-IsExclusive cfg id o st _ h n m = h

  -- If no symbol has a position and a waiting entry together, and exits are pending only where there
  -- is a position, then this holds after an order of any type too, whether it is placed or refused.
  pub place_order-IsExclusive :
      (cfg : SimulatedBrokerConfig D) (nanos : ℕ) (o : Order D) (st : SimulatedState D)
      → IsExclusive st
      → IsExclusive (place_order cfg nanos o st).0
  unfolding place_order
  place_order-IsExclusive cfg nanos o st h = elim (Option-cases (lookup o.symbol st.positions)) [
    | inr (p, e) ↦ rw (e, place_order) h
    | inl n ↦ elim (Option-cases (lookup o.symbol st.pending_entries)) [
      | inr (w, e) ↦ rw (n, e, place_order) h
      | inl m ↦ rw (n, m, place_order) (place_by_type-IsExclusive cfg _ _ _ o.order_type h n m)
    ]
  ]
