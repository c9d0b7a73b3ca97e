-- ===== src/Strategies/BalanceArea/Area.antt =====
-- The area of balance and the breakout from it: context.rs and setup.rs.
use daytradebot.Base.{
  ℕ, ◌+◌, ◌-◌, ◌||◌, none, some, List, [], ◌∷◌, length, take, drop, map, get_last?, ltb, ◌==◌,
  if◌then◌else◌,
}
use daytradebot.Decimal.{Decimal, ◌⊕◌, ◌⊖◌, ◌⊘◌, lt, is_zero}
use daytradebot.Session.{NewYork, et_date}
use daytradebot.Domain.Market.{Candle}
use daytradebot.Domain.Signals.{Direction, long, short, RejectionReason}
use daytradebot.Risk.{Check, go_on, reject, reject_if, ◌>>◌}
use daytradebot.Strategies.Checks.{last_in_hours, highest, lowest}
use daytradebot.Strategies.BalanceArea.Params.{BalanceParameters}

pub record Area (D : Type 0) : Type 0 where
  pub high : D
  pub low : D
  pub width_pct : D
  pub width_atr : D

-- A date put in its place in a list that is sorted and has no date twice.
unfoldable pub insert_date : ℕ → List ℕ → List ℕ
insert_date day [] = day ∷ []
insert_date day (e ∷ days) =
    let rest = insert_date day days in
    if day == e then e ∷ days else if ltb day e then day ∷ e ∷ days else e ∷ rest

-- `sort` and `dedup`
unfoldable pub sorted_dates : List ℕ → List ℕ
sorted_dates [] = []
sorted_dates (day ∷ days) = insert_date day (sorted_dates days)

module _ {D : Type 0} ⦃d : Decimal D⦄ where
  unfoldable pub check_hours : NewYork → List (Candle D) → BalanceParameters D → Check (Unit {0})
  check_hours ny candles params =
      last_in_hours ny params.trading_start_time params.trading_end_time candles

  -- The candles of the area: so many before the last one.
  abbrev pub area_candles : List (Candle D) → ℕ → List (Candle D)
  area_candles candles n = take n (drop (length candles - 1 - n) candles)

  abbrev pub area_of : List (Candle D) → D → Area D
  area_of cs atr_value =
      let width = highest cs ⊖ lowest cs in
      record {
        high = highest cs;
        low = lowest cs;
        width_pct = width ⊘ ((highest cs ⊕ lowest cs) ⊘ d.of_ℕ 2);
        width_atr = if is_zero atr_value then d.nought else width ⊘ atr_value;
      }

  unfoldable pub detect_balance_area :
      NewYork → List (Candle D) → D → BalanceParameters D → Check (Area D)
  detect_balance_area ny candles atr_value params =
      let cs = area_candles candles params.balance_lookback_candles in
      let area = area_of cs atr_value in
      let days = sorted_dates (map (λ c. et_date ny c.timestamp) cs) in
      do
        reject_if (ltb (length candles) (params.balance_lookback_candles + 1))
            RejectionReason.incomplete_setup
        reject_if (is_zero ((highest cs ⊕ lowest cs) ⊘ d.of_ℕ 2)) RejectionReason.incomplete_setup
        reject_if (ltb (length days) 2) RejectionReason.no_balance_area
        reject_if
            (lt params.balance_max_width_pct area.width_pct
              || lt params.balance_max_width_atr_mult area.width_atr)
            RejectionReason.no_balance_area
        go_on area

  -- The direction of the breakout, with the bar; the source holds its index.
  unfoldable pub breakout_of : Area D → Candle D → Check (Direction × Candle D)
  breakout_of area bar =
      if lt area.high bar.close
      then go_on (long, bar)
      else if lt bar.close area.low
      then go_on (short, bar)
      else reject RejectionReason.incomplete_setup

  unfoldable pub detect_breakout : List (Candle D) → Area D → Check (Direction × Candle D)
  detect_breakout candles area = elim (get_last? candles) [
    | none ↦ reject RejectionReason.incomplete_setup
    | some bar ↦ breakout_of area bar
  ]
