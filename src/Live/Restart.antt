-- ===== src/Live/Restart.antt =====
-- What a restart of the live worker rebuilds from the database: `rebuild_risk_state` and
-- `recover_open_order`.
use daytradebot.Base.{
  ℕ, ◌+◌, ◌≡◌, refl, ap, sym, ◌∙◌, String, Bool, true, false, Option, none, some, List, [], ◌∷◌,
  reverse, foldl, if◌then◌else◌, string_key,
}
use mathlib.Core.List.{reverse-cons, foldl-append}
use daytradebot.Decimal.{Decimal, IsExact, ◌⊕◌, ◌⊖◌, ◌⊗◌, lt}
use daytradebot.Domain.Signals.{Signal, SignalStatus}
use daytradebot.Domain.Orders.{Order, Fill}
use daytradebot.Domain.Trades.{Trade}
use daytradebot.TradeTracker.{FillTracker, on_fill, get_or}
use daytradebot.Risk.{RiskState, update_state}
use daytradebot.Execution.{sync_risk_state}
use daytradebot.Live.State.{LiveFillState}
use daytradebot.Live.Exposure.{sum, counted}
use daytradebot.Live.Events.{tracker_fill}

abbrev pub is_rejected : SignalStatus → Bool
is_rejected SignalStatus.rejected = true
is_rejected _ = false

unfoldable pub executed_signals : List SignalStatus → ℕ
executed_signals [] = 0
executed_signals (s ∷ ss) =
    let rest = executed_signals ss in if is_rejected s then rest else rest + 1

-- An open order as the database has it.
pub record StoredOrder (D : Type 0) : Type 0 where
  pub db_id : Option ℕ
  pub broker_order_id : Option String
  pub signal_db_id : Option ℕ
  pub order : Order D

-- The signal of an order, with the risk that was recorded for it.
pub record StoredSignal (D : Type 0) : Type 0 where
  pub signal : Signal D
  pub risk_amount : Option D

-- Reading the repositories; `none` is a failure.
pub record StoredDay (D : Type 0) : Type 0 where
  pub list_open : Option (List (StoredOrder D))
  pub signal_by_id : ℕ → Option (Option (StoredSignal D))
  pub fills_of : ℕ → Option (List (Fill D))

module _ {D : Type 0} ⦃d : Decimal D⦄ where
  -- `RiskState::default`
  abbrev pub fresh_day : RiskState D
  fresh_day = record { daily_pnl = d.nought; daily_trades = 0; consecutive_losses = 0 }

  -- The losses before the first result that is none.
  unfoldable pub leading_losses : List D → ℕ
  leading_losses [] = 0
  leading_losses (p ∷ ps) = let rest = leading_losses ps in if lt p d.nought then rest + 1 else 0

  abbrev pub with_trades : Option (List (Trade D × Bool)) → RiskState D → RiskState D
  with_trades none state = state
  with_trades (some trades) state = record state {
    daily_pnl = sum (counted trades);
    consecutive_losses = leading_losses (counted trades);
  }

  abbrev pub with_signals : Option (List SignalStatus) → RiskState D → RiskState D
  with_signals none state = state
  with_signals (some signals) state = record state { daily_trades = executed_signals signals }

  -- The trades of the day, the latest first and each with its mark as an artefact, and the signals'
  -- statuses.
  unfoldable pub rebuild_risk_state :
      Option (List (Trade D × Bool)) → Option (List SignalStatus) → RiskState D
  rebuild_risk_state trades signals = with_signals signals (with_trades trades fresh_day)

  abbrev pub replayed : FillTracker D → List (Fill D) → ℕ → FillTracker D
  replayed t fills now = foldl (λ t' f. (on_fill t' (tracker_fill f) now).0) t fills

  abbrev pub distance_at_risk : Option D → Option D → D → D
  distance_at_risk (some entry) (some stop) quantity = d.abs (entry ⊖ stop) ⊗ quantity
  distance_at_risk none stop quantity = d.nought
  distance_at_risk (some entry) none quantity = d.nought

  unfoldable pub find_stored : String → List (StoredOrder D) → Option (StoredOrder D)
  find_stored symbol [] = none
  find_stored symbol (o ∷ os) =
      if string_key.same o.order.symbol symbol then some o else find_stored symbol os

  -- The order is tracked again, with the fills that the database has of it.
  unfoldable pub retrack :
      StoredOrder D → ℕ → ℕ → StoredSignal D → List (Fill D) → ℕ → LiveFillState D → LiveFillState D
  retrack o order_id signal_id s fills now state = record state {
    tracker = replayed state.tracker fills now;
    open_order = some (record {
      order_db_id = some order_id;
      signal_db_id = some signal_id;
      broker_order_id = get_or o.broker_order_id "";
      entry_order_type = o.order.entry_order_type;
      candles_waited = 0;
      stop_price = get_or o.order.stop_price d.nought;
      target_price = o.order.target_price;
      risk_amount =
          get_or s.risk_amount
            (distance_at_risk s.signal.entry_price s.signal.stop_price o.order.quantity);
    });
  }

  -- `none` is an error, and else whether an order was recovered.
  unfoldable pub recover_with_ids :
      StoredDay D → ℕ → StoredOrder D → ℕ → ℕ → LiveFillState D → LiveFillState D × Option Bool
  recover_with_ids day now o order_id signal_id state = elim (day.signal_by_id signal_id) [
    | none ↦ (state, none)
    | some found ↦ elim found [
      | none ↦ (state, none)
      | some s ↦ elim (day.fills_of order_id) [
        | none ↦ (state, none)
        | some fills ↦ (retrack o order_id signal_id s fills now state, some true)
      ]
    ]
  ]

  unfoldable pub recover_order :
      StoredDay D → ℕ → Option (StoredOrder D) → LiveFillState D → LiveFillState D × Option Bool
  recover_order day now none state = (state, some false)
  recover_order day now (some o) state = elim o.db_id [
    | none ↦ (state, some false)
    | some order_id ↦ elim o.signal_db_id [
      | none ↦ (state, some false)
      | some signal_id ↦ recover_with_ids day now o order_id signal_id state
    ]
  ]

  unfoldable pub recover_open_order :
      StoredDay D → String → ℕ → LiveFillState D → LiveFillState D × Option Bool
  recover_open_order day symbol now state = elim day.list_open [
    | none ↦ (state, none)
    | some orders ↦ recover_order day now (find_stored symbol orders) state
  ]

  module _ (exact : IsExact D) where
    open exact use {add_assoc, add_comm}

    sum_from :
        (a b : D) (ps : List D) → foldl (λ x y. x ⊕ y) (a ⊕ b) ps ≡ foldl (λ x y. x ⊕ y) a ps ⊕ b
    sum_from a b [] = refl
    sum_from a b (p ∷ ps) =
        ap (λ s. foldl (λ x y. x ⊕ y) s ps)
          (add_assoc a b p ∙ ap (λ s. a ⊕ s) (add_comm b p) ∙ sym (add_assoc a p b))
        ∙ sum_from (a ⊕ p) b ps

    sync_latest :
        (p : D) (ps : List D) (state : RiskState D)
        → sync_risk_state state (reverse (p ∷ ps))
          ≡ sync_risk_state (sync_risk_state state (reverse ps)) (p ∷ [])
    unfolding sync_risk_state
    sync_latest p ps state =
        ap (foldl update_state state) (reverse-cons p ps)
        ∙ foldl-append update_state state (reverse ps) (p ∷ [])

    sync-rebuild :
        (ps : List D) (n : ℕ)
        → sync_risk_state (record fresh_day { daily_trades = n }) (reverse ps) ≡ (record {
          daily_pnl = sum ps;
          daily_trades = n;
          consecutive_losses = leading_losses ps;
        })
    unfolding sync_risk_state leading_losses update_state
    sync-rebuild [] n = refl
    sync-rebuild (p ∷ ps) n =
        sync_latest p ps (record fresh_day { daily_trades = n })
        ∙ ap (λ s. update_state s p) (sync-rebuild ps n)
        ∙ ap
            (λ total. record {
              daily_pnl = total;
              daily_trades = n;
              consecutive_losses = leading_losses (p ∷ ps);
            })
            (sym (sum_from d.nought p ps))

    -- A restart in the middle of the day finds the risk of the day as it was: what is rebuilt from the
    -- trades in the database, the latest first, and from the executed signals is what synchronising
    -- with the unmarked trades' results in the order of their exits makes of a day with as many trades.
    pub rebuild_risk_state-sync :
        (trades : List (Trade D × Bool)) (signals : List SignalStatus)
        → rebuild_risk_state (some trades) (some signals)
          ≡ sync_risk_state
              (record fresh_day { daily_trades = executed_signals signals })
              (reverse (counted trades))
    unfolding rebuild_risk_state
    rebuild_risk_state-sync trades signals =
        sym (sync-rebuild (counted trades) (executed_signals signals))
