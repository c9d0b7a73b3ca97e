-- ===== src/Execution/Safety.antt =====
-- When an order reaches the broker, and what it is.
use daytradebot.Base.{
  ◌≡◌, ◌≢◌, refl, ◌⊎◌, inl, inr, true, false, Option, none, some, List, arith, subst, sym,
  Bool-cases, Option-cases,
}
use daytradebot.Decimal.{Decimal}
use daytradebot.Session.{NewYork}
use daytradebot.Domain.Market.{Candle, MarketContext, Quote}
use daytradebot.Domain.Signals.{RejectionReason, Signal}
use daytradebot.Domain.Orders.{Order}
use daytradebot.Risk.{RiskConfig, RiskState, RiskCheck, approved, rejected, validate}
use daytradebot.Broker.{Result, BrokerError, ok, err}
use daytradebot.Execution.Engine.{
  BrokerOps, ExecutionResult, executed, build_bracket_order, is_overrun, placed, send,
  process_signal,
}

Result-cases :
    {A : Type 0} (r : Result A) → ((e : BrokerError) × (r ≡ err e)) ⊎ ((a : A) × (r ≡ ok a))
Result-cases (err e) = inl (e, refl)
Result-cases (ok a) = inr (a, refl)

module _ {D : Type 0} ⦃d : Decimal D⦄ where
  RiskCheck-cases :
      (c : RiskCheck D)
      → ((size : D) × (risk : D) × (c ≡ approved size risk))
        ⊎ ((r : RejectionReason) × (c ≡ rejected r))
  RiskCheck-cases (approved size risk) = inl (size, risk, refl)
  RiskCheck-cases (rejected r) = inr (r, refl)

  module _ {S Ident : Type 0} (broker : BrokerOps S Ident D) (cfg : RiskConfig D) (ny : NewYork)
      (signal : Signal D) (ctx : MarketContext D) (quote : Option (Quote D)) (reference : Option D)
      (state : RiskState D) (money : D) (candles : List (Candle D)) (st : S) where
    abbrev outcome : S × ExecutionResult Ident D
    outcome = process_signal broker cfg ny signal ctx quote reference state money candles st

    -- The broker took the bracket of the signal with this size, and answered with this id.
    abbrev pub WasPlaced : Ident → D → Type 0
    WasPlaced id size =
        (order : Order D) × (build_bracket_order signal size ≡ some order)
        × (broker.submit order st ≡ (outcome.0, ok id))

    executed_gates :
        {id : Ident} {size risk : D}
        → outcome.1 ≡ executed id size risk
        → (broker.find_position signal.symbol st ≡ ok none)
          × (is_overrun cfg signal reference ≡ false)
          × (validate cfg ny signal ctx quote state money candles ≡ approved size risk)
    unfolding process_signal send
    executed_gates h = (ground arith, ground arith, ground arith)

    sent_when_open :
        {size risk : D}
        → broker.find_position signal.symbol st ≡ ok none
        → is_overrun cfg signal reference ≡ false
        → validate cfg ny signal ctx quote state money candles ≡ approved size risk
        → outcome ≡ send broker signal size risk st
    unfolding process_signal
    sent_when_open a b c = rw (a, b, c, process_signal)

    send-WasPlaced :
        {id : Ident} {size risk : D} (size' risk' : D)
        → (send broker signal size' risk' st).1 ≡ executed id size risk
        → (order : Order D) × (build_bracket_order signal size' ≡ some order)
          × (broker.submit order st ≡ ((send broker signal size' risk' st).0, ok id))
    unfolding send
    send-WasPlaced size' risk' h = elim (Option-cases (build_bracket_order signal size')) [
      | inl e ↦ cc (rw (e, send) at h)
      | inr (order, e) ↦ (order, e, ground arith)
    ]

    -- If a signal is reported as executed with a size and a risk, then the broker had answered that
    -- there is no position, the price had not run past the entry, the risk manager had approved this
    -- size and this risk, and the broker took the bracket of the signal with this size.
    pub process_signal-executed :
        {id : Ident} {size risk : D}
        → outcome.1 ≡ executed id size risk
        → (broker.find_position signal.symbol st ≡ ok none)
          × (is_overrun cfg signal reference ≡ false)
          × (validate cfg ny signal ctx quote state money candles ≡ approved size risk)
          × WasPlaced id size
    process_signal-executed {id} {size} {risk} h =
        let (free, calm, passed) = executed_gates h in
        let sent = sent_when_open free calm passed in
        (free, calm, passed, rw sent (send-WasPlaced size risk (rw sent at h)))

    -- If the broker does not answer that there is no position, or the price has run past the entry, or
    -- the risk manager refuses the signal, then the broker's state is untouched.
    pub process_signal-fails_closed :
        (broker.find_position signal.symbol st ≢ ok none)
          ⊎ (is_overrun cfg signal reference ≡ true)
          ⊎ ((r : RejectionReason) × (validate cfg ny signal ctx quote state money candles
                ≡ rejected r))
        → outcome.0 ≡ st
    unfolding process_signal
    process_signal-fails_closed h = ground arith

    placed-state : (size risk : D) (r : S × Result Ident) → (placed broker size risk r).0 ≡ r.0
    placed-state size risk (st', ok id) = refl
    placed-state size risk (st', err e) = refl

    send_keeps :
        (P : S → Type 0)
        → P st
        → ((size : D) (order : Order D)
            → build_bracket_order signal size ≡ some order
            → P (broker.submit order st).0)
        → (size risk : D) → P (send broker signal size risk st).0
    unfolding send
    send_keeps P here after size risk = elim (Option-cases (build_bracket_order signal size)) [
      | inl e ↦ rw (e, send) here
      | inr (order, e) ↦
          rw (e, send)
            (subst P (sym (placed-state size risk (broker.submit order st))) (after size order e))
    ]

    -- Whatever holds of the broker's state, and of its state after the bracket of the signal at any
    -- size, holds after the signal is processed.
    pub process_signal_keeps :
        (P : S → Type 0)
        → P st
        → ((size : D) (order : Order D)
            → build_bracket_order signal size ≡ some order
            → P (broker.submit order st).0)
        → P outcome.0
    unfolding process_signal
    process_signal_keeps P here after =
        elim (Result-cases (broker.find_position signal.symbol st)) [
          | inl (e, failed) ↦ rw (failed, process_signal) here
          | inr (found, answered) ↦
              rw (answered, process_signal)
                (elim (Option-cases found) [
                  | inr (p, held) ↦ rw (held, process_signal) here
                  | inl free ↦
                      rw (free, process_signal)
                        (elim (Bool-cases (is_overrun cfg signal reference)) [
                          | inl past ↦ rw (past, process_signal) here
                          | inr calm ↦
                              rw (calm, process_signal)
                                (elim (RiskCheck-cases
                                  (validate cfg ny signal ctx quote state money candles)) [
                                    | inr (r, refused) ↦ rw (refused, process_signal) here
                                    | inl (size, risk, passed) ↦
                                        rw (passed, process_signal)
                                          (send_keeps P here after size risk)
                                  ])
                        ])
                ])
        ]
