-- ===== src/Strategies/RangeFade/Vetoes.antt =====
-- The vetoes of the middle of the day, of overlapping bars and of the average: the second half of
-- context.rs.
use daytradebot.Base.{
  ℕ, ◌+◌, ◌-◌, ◌*◌, Bool, false, not, ◌&&◌, ◌||◌, none, some, List, [], ◌∷◌, length, drop,
  get_last?, leb, ltb, if◌then◌else◌,
}
use daytradebot.Decimal.{Decimal, ◌⊕◌, ◌⊖◌, ◌⊗◌, ◌⊘◌, le, lt, max, min, is_zero}
use daytradebot.Session.{NewYork, within_trading_window}
use daytradebot.Indicators.{ema, atr}
use daytradebot.Domain.Market.{Candle, range, body}
use daytradebot.Domain.Signals.{Direction, long, short}
use daytradebot.Strategies.Checks.{highest, lowest}
use daytradebot.Strategies.RangeFade.Params.{FadeParameters}
use daytradebot.Strategies.RangeFade.RangeDay.{today, day_range}

abbrev pub majority_against : Direction → ℕ → Bool
majority_against long above = leb 8 (above * 2)
majority_against short above = ltb (above * 2) 8

module _ {D : Type 0} ⦃d : Decimal D⦄ where
  -- The price in the middle third of the range of the day, or a day without a range.
  abbrev pub mid_range : NewYork → List (Candle D) → D → Bool
  mid_range ny candles price =
      let third = day_range ny candles ⊘ d.of_ℕ 3 in
      is_zero (day_range ny candles)
      || (le (lowest (today ny candles) ⊕ third) price
          && le price (highest (today ny candles) ⊖ third))

  unfoldable pub is_midday_midrange : NewYork → List (Candle D) → FadeParameters D → Bool
  is_midday_midrange ny candles params = elim (get_last? candles) [
    | none ↦ false
    | some last ↦
        within_trading_window ny last.timestamp params.midday_start_time params.midday_end_time
        && mid_range ny candles last.close
  ]

  abbrev pub is_doji : FadeParameters D → Candle D → Bool
  is_doji params c =
      not (is_zero (range c)) && lt (body c) (params.barb_wire_doji_body_pct ⊗ range c)

  abbrev pub overlap : Candle D → Candle D → D
  overlap previous c = min previous.high c.high ⊖ max previous.low c.low

  -- Every bar overlaps the one before it, and one of them is a doji.
  unfoldable pub wired : D → FadeParameters D → Bool → List (Candle D) → Bool
  wired avg_range params doji [] = doji
  wired avg_range params doji (c ∷ []) = doji || is_doji params c
  wired avg_range params doji (a ∷ b ∷ rest) =
      let others = wired avg_range params (doji || is_doji params a) (b ∷ rest) in
      if lt (overlap a b) (params.barb_wire_overlap_pct ⊗ avg_range) then false else others

  unfoldable pub is_barb_wire : List (Candle D) → FadeParameters D → Bool
  is_barb_wire candles params = elim (atr candles params.atr_period) [
    | none ↦ false
    | some avg_range ↦
        leb (params.barb_wire_bars + 1) (length candles)
        && wired avg_range params false (drop (length candles - params.barb_wire_bars) candles)
  ]

  unfoldable pub count_above : D → List (Candle D) → ℕ
  count_above price [] = 0
  count_above price (c ∷ cs) =
      let rest = count_above price cs in if lt price c.close then rest + 1 else rest

  -- The source looks at 8 closes, whatever the parameter says.
  unfoldable pub ema_side_veto : List (Candle D) → Direction → Bool
  ema_side_veto candles direction = elim (ema candles 20) [
    | none ↦ false
    | some ema_value ↦
        leb 8 (length candles)
        && majority_against direction (count_above ema_value (drop (length candles - 8) candles))
  ]
