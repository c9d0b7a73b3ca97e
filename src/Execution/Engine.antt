-- ===== src/Execution/Engine.antt =====
-- `ExecutionEngine` over any broker.
use daytradebot.Base.{
  String, Bool, true, false, ◌&&◌, Option, none, some, List, foldl, if◌then◌else◌,
}
use daytradebot.Decimal.{Decimal, ◌⊖◌, ◌⊗◌, lt}
use daytradebot.Session.{NewYork}
use daytradebot.Domain.Market.{Candle, MarketContext, Quote}
use daytradebot.Domain.Signals.{Direction, long, short, RejectionReason, Signal}
use daytradebot.Domain.Orders.{Order, OrderType, OrderSide, EntryOrderType, buy, sell, new_order}
use daytradebot.Domain.Trades.{Position}
use daytradebot.Risk.{RiskConfig, RiskState, RiskCheck, approved, rejected, validate, update_state}
use daytradebot.Broker.{Result, ok, err}

-- The methods of the trait `Broker` (crates/trader-domain/src/ports.rs) that the engine calls, on a
-- broker's state.
pub record BrokerOps (S Ident D : Type 0) : Type 0 where
  pub find_position : String → S → Result (Option (Position D))
  pub submit : Order D → S → S × Result Ident

pub data ExecutionResult (Ident D : Type 0) : Type 0 where
  executed : Ident → D → D → ExecutionResult Ident D
  rejected_by_risk : RejectionReason → ExecutionResult Ident D
  rejected_by_broker : ExecutionResult Ident D

abbrev pub side_of : Direction → OrderSide
side_of long = buy
side_of short = sell

abbrev pub is_stop_entry : EntryOrderType → Bool
is_stop_entry EntryOrderType.stop = true
is_stop_entry EntryOrderType.limit = false

module _ {D : Type 0} ⦃d : Decimal D⦄ where
  -- `build_bracket_order`; `none` is a refused quantity.
  unfoldable pub build_bracket_order : Signal D → D → Option (Order D)
  build_bracket_order signal position_size =
      elim (new_order signal.symbol (side_of signal.direction) OrderType.bracket position_size) [
        | none ↦ none
        | some order ↦ some (record order {
          signal_id = none;
          entry_order_type = signal.entry_order_type;
          price = signal.entry_price;
          stop_price = signal.stop_price;
          target_price = signal.target_price;
        })
      ]

  abbrev run_past : Direction → D → D → D
  run_past long reference entry = reference ⊖ entry
  run_past short reference entry = entry ⊖ reference

  abbrev past_tolerance : D → Direction → D → D → D → Bool
  past_tolerance tolerance direction reference entry stop =
      let stop_distance = d.abs (entry ⊖ stop) in
      lt d.nought stop_distance
      && lt (tolerance ⊗ stop_distance) (run_past direction reference entry)

  -- The guard against an entry that the price has already run past.
  unfoldable pub is_overrun : RiskConfig D → Signal D → Option D → Bool
  is_overrun cfg signal reference_price =
      if is_stop_entry signal.entry_order_type
      then elim reference_price [
        | none ↦ false
        | some reference ↦ elim signal.entry_price [
          | none ↦ false
          | some entry ↦ elim signal.stop_price [
            | none ↦ false
            | some stop ↦
                past_tolerance cfg.entry_overshoot_tolerance signal.direction reference entry stop
          ]
        ]
      ]
      else false

  module _ {S Ident : Type 0} (broker : BrokerOps S Ident D) where
    abbrev pub placed : D → D → S × Result Ident → S × ExecutionResult Ident D
    placed size risk (st, ok id) = (st, executed id size risk)
    placed size risk (st, err e) = (st, rejected_by_broker)

    -- An approved signal goes to the broker.
    unfoldable pub send : Signal D → D → D → S → S × ExecutionResult Ident D
    send signal size risk st = elim (build_bracket_order signal size) [
      | none ↦ (st, rejected_by_broker)
      | some order ↦ placed size risk (broker.submit order st)
    ]

    abbrev decide : Signal D → S → RiskCheck D → S × ExecutionResult Ident D
    decide signal st (approved size risk) = send signal size risk st
    decide signal st (rejected reason) = (st, rejected_by_risk reason)

    -- `process_signal`
    unfoldable pub process_signal :
        RiskConfig D
        → NewYork
        → Signal D
        → MarketContext D
        → Option (Quote D)
        → Option D
        → RiskState D
        → D
        → List (Candle D)
        → S
        → S × ExecutionResult Ident D
    process_signal cfg ny signal ctx quote reference_price state money candles st =
        elim (broker.find_position signal.symbol st) [
          | err e ↦ (st, rejected_by_broker)
          | ok (some p) ↦ (st, rejected_by_risk RejectionReason.position_already_open)
          | ok none ↦
              if is_overrun cfg signal reference_price
              then (st, rejected_by_risk RejectionReason.setup_invalidated)
              else decide signal st (validate cfg ny signal ctx quote state money candles)
        ]

  -- `sync_risk_state`
  unfoldable pub sync_risk_state : RiskState D → List D → RiskState D
  sync_risk_state = foldl update_state
