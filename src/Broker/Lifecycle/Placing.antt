-- ===== src/Broker/Lifecycle/Placing.antt =====
-- Orders at the simulated broker: one that is placed waits or fills, one that is cancelled waits no more.
use daytradebot.Base.{
  ℕ, ◌≡◌, refl, subst, ap, sym, ◌∙◌, inl, inr, String, Option, none, some, arith, Bool-cases, false,
  ◌⊎◌, insert, Option-cases, lookup, erase, lookup-erase, HashMap, lookup-insert,
  lookup-insert_self, lookup-erase_self, string_key,
}
use daytradebot.Decimal.{Decimal, le}
use daytradebot.Domain.Orders.{Order, OrderType, is_filled}
use daytradebot.Domain.Trades.{Position, new_position}
use daytradebot.Broker.State.{
  OrderId, order_id_key, PendingEntry, PendingExit, SimulatedState, SimulatedBrokerConfig,
}
use daytradebot.Broker.Orders.{
  open_position, await_entry, place_bracket, place_by_type, place_order, cancel_order,
}
use daytradebot.Broker.Placing.{entry-cases}
use daytradebot.Broker.Fits.{IsExclusive, no_position}
use daytradebot.Broker.Lifecycle.{
  Phase, flat, awaiting, cancel, Place, refused, Step, kept, called_off, same_phase, unplaced,
  armed, was_opened, phase_of, trades_of, is_holding, is_flat, is_awaiting,
}

key-cases : (s k : String) → (s ≡ k) ⊎ (string_key.same s k ≡ false)
key-cases s k = elim (Bool-cases (string_key.same s k)) [
  | inl e ↦ inl ((string_key.same_iff s k).0 e)
  | inr e ↦ inr e
]

erase_other :
    {V : Type 0} (s k : String) (m : HashMap String V)
    → string_key.same s k ≡ false
    → lookup k m ≡ lookup k (erase s m)
erase_other s k m other = ground (arith, lookup-erase s k m)

stayed :
    {D : Type 0} {a b : Phase} {n : ℕ} (id : OrderId) (t : ℕ)
    → a ≡ b
    → Step {D = D} (cancel id t) a n b n
stayed id t e = rw e kept

went :
    {D : Type 0} {a b : Phase} {n : ℕ} (id : OrderId) (t : ℕ)
    → a ≡ awaiting
    → b ≡ flat
    → Step {D = D} (cancel id t) a n b n
went id t e f = rw (e, f) called_off

insert_other :
    {V : Type 0} (s k : String) (v : V) (m : HashMap String V)
    → string_key.same s k ≡ false
    → lookup k m ≡ lookup k (insert s v m)
insert_other s k v m other = ground (arith, lookup-insert s k v m)

module _ {D : Type 0} ⦃d : Decimal D⦄ where
  abbrev pub Places : String → SimulatedState D → SimulatedState D → Type 0
  Places k st st' = Place (phase_of k st) (phase_of k st') × (trades_of st ≡ trades_of st')

  opened :
      (k s : String) (p : Position D) (st st' : SimulatedState D)
      → lookup s st.positions ≡ none
      → lookup s st.pending_entries ≡ none
      → st'.positions ≡ insert s p st.positions
      → st'.pending_entries ≡ st.pending_entries
      → Place (phase_of k st) (phase_of k st')
  opened k s p st st' n m e f = elim (key-cases s k) [
    | inl same ↦
        subst (λ k. Place (phase_of k st) (phase_of k st')) same
          (was_opened (is_flat s st n m)
            (is_holding s st' p (ap (lookup s) e ∙ lookup-insert_self s p st.positions)))
    | inr other ↦ unplaced (
        same_phase k st st' (insert_other s k p st.positions other ∙ ap (lookup k) (sym e))
          (ap (lookup k) (sym f)))
  ]

  awaited :
      (k s : String) (w : PendingEntry D) (st st' : SimulatedState D)
      → lookup s st.positions ≡ none
      → lookup s st.pending_entries ≡ none
      → st'.positions ≡ st.positions
      → st'.pending_entries ≡ insert s w st.pending_entries
      → Place (phase_of k st) (phase_of k st')
  awaited k s w st st' n m e f = elim (key-cases s k) [
    | inl same ↦
        subst (λ k. Place (phase_of k st) (phase_of k st')) same
          (armed (is_flat s st n m) (
            is_awaiting s st' w (ap (lookup s) e ∙ n)
              (ap (lookup s) f ∙ lookup-insert_self s w st.pending_entries)))
    | inr other ↦ unplaced (
        same_phase k st st' (ap (lookup k) (sym e))
          (insert_other s k w st.pending_entries other ∙ ap (lookup k) (sym f)))
  ]

  module _ (k : String) (cfg : SimulatedBrokerConfig D) (id : OrderId) (o : Order D)
      (st : SimulatedState D) (n : lookup o.symbol st.positions ≡ none)
      (m : lookup o.symbol st.pending_entries ≡ none) where
    open_position-Places :
        (fill least : D) (exits : Option (PendingExit D))
        → Places k st (open_position cfg id o fill least exits st).0
    unfolding open_position new_position
    open_position-Places fill least exits = elim (Bool-cases (le o.quantity d.nought)) [
      | inl empty ↦ rw (empty, open_position, new_position) (refused, refl)
      | inr full ↦
          rw (full, open_position, new_position) (opened k o.symbol _ st _ n m refl refl, refl)
    ]

    await_entry-Places : (x : PendingExit D) → Places k st (await_entry id o x st).0
    unfolding await_entry
    await_entry-Places x = elim (Option-cases o.price) [
      | inl e ↦ rw (e, await_entry) (refused, refl)
      | inr (trigger, e) ↦ rw (e, await_entry) (awaited k o.symbol _ st _ n m refl refl, refl)
    ]

    place_bracket-Places : Places k st (place_bracket cfg id o st).0
    unfolding place_bracket
    place_bracket-Places = elim (Option-cases o.stop_price) [
      | inl e ↦ rw (e, place_bracket) (refused, refl)
      | inr (least, e) ↦
          rw (e, place_bracket)
            (elim (Option-cases o.target_price) [
              | inl e' ↦ rw (e', place_bracket) (refused, refl)
              | inr (target, e') ↦
                  rw (e', place_bracket)
                    (elim (entry-cases o.entry_order_type) [
                      | inl waits ↦ rw (waits, place_bracket) (await_entry-Places _)
                      | inr fills ↦
                          rw (fills, place_bracket) (open_position-Places _ least (some _))
                    ])
            ])
    ]

    place_by_type-Places : (kind : OrderType) → Places k st (place_by_type cfg id o st kind).0
    unfolding place_by_type
    place_by_type-Places OrderType.market = open_position-Places _ _ none
    place_by_type-Places OrderType.limit = open_position-Places _ _ none
    place_by_type-Places OrderType.bracket = place_bracket-Places
    place_by_type-Places _ = (refused, refl)

  pub place_order-Places :
      (k : String) (cfg : SimulatedBrokerConfig D) (nanos : ℕ) (o : Order D) (st : SimulatedState D)
      → Places k st (place_order cfg nanos o st).0
  unfolding place_order phase_of
  place_order-Places k cfg nanos o st = elim (Option-cases (lookup o.symbol st.positions)) [
    | inr (p, e) ↦ rw (e, place_order) (refused, refl)
    | inl n ↦ elim (Option-cases (lookup o.symbol st.pending_entries)) [
      | inr (w, e) ↦ rw (n, e, place_order) (refused, refl)
      | inl m ↦ rw (n, m, place_order) (place_by_type-Places k cfg _ _ _ n m o.order_type)
    ]
  ]

  withdrawn :
      (k s : String) (id : OrderId) (t : ℕ) (st st' : SimulatedState D)
      → IsExclusive st
      → st'.positions ≡ st.positions
      → st'.pending_entries ≡ erase s st.pending_entries
      → Step {D = D} (cancel id t) (phase_of k st) (trades_of st) (phase_of k st') (trades_of st)
  withdrawn k s id t st st' h e f = elim (key-cases s k) [
    | inr other ↦ stayed id t (
        same_phase k st st' (ap (lookup k) (sym e))
          (erase_other s k st.pending_entries other ∙ ap (lookup k) (sym f)))
    | inl same ↦
        let left =
          ap (lookup k) f
          ∙ subst (λ s. lookup k (erase s st.pending_entries) ≡ none) (sym same)
              (lookup-erase_self k st.pending_entries) in
        elim (Option-cases (lookup k st.pending_entries)) [
          | inl n ↦ stayed id t (same_phase k st st' (ap (lookup k) (sym e)) (n ∙ sym left))
          | inr (w, n) ↦
              let none_held = no_position k st h w n in
              went id t (is_awaiting k st w none_held n)
                (is_flat k st' (ap (lookup k) e ∙ none_held) left)
        ]
  ]

  pub cancel_order-Step :
      (k : String) (id : OrderId) (t : ℕ) (st : SimulatedState D)
      → IsExclusive st
      → let st' = (cancel_order id t st).0 in
        Step {D = D} (cancel id t) (phase_of k st) (trades_of st) (phase_of k st') (trades_of st')
  unfolding cancel_order
  cancel_order-Step k id t st h = elim (Option-cases (lookup id st.orders)) [
    | inl n ↦ rw (n, cancel_order) kept
    | inr (o, e) ↦
        rw (e, cancel_order)
          (elim (Bool-cases (is_filled o)) [
            | inl done ↦ rw (done, cancel_order) kept
            | inr still ↦ rw (still, cancel_order) (withdrawn k o.symbol id t st _ h refl refl)
          ])
  ]
