-- ===== src/Strategies/ValueArea/Reentry.antt =====
-- What holds of a setup of the strategy: where today opened, and the way back into the area.
use daytradebot.Base.{
  ◌+◌, ◌-◌, ◌≡◌, refl, subst, Bool, true, false, not, ◌||◌, some, List, ◌⊎◌, inl, inr, Bool-cases,
  length, drop, get_elem?, arith, ltb,
}
use daytradebot.Decimal.{Decimal, ◌⊖◌, ◌≼◌, ◌≺◌, lt}
use daytradebot.Session.{NewYork}
use daytradebot.Domain.Market.{Candle}
use daytradebot.Domain.Signals.{long, short, RejectionReason}
use daytradebot.Risk.{go_on}
use daytradebot.Strategies.Checks.{needed, bind-go_on, reject_if-go_on, needed-go_on, go_on-inj}
use daytradebot.Strategies.ValueArea.Params.{ValueParameters}
use daytradebot.Strategies.ValueArea.Profile.{ValueArea, contains}
use daytradebot.Strategies.ValueArea.Days.{current_day_start}
use daytradebot.Strategies.ValueArea.Today.{StartsDay, current_day_start-StartsDay}
use daytradebot.Strategies.ValueArea.Setup.{
  TraversalSetup, all_inside, side_of, distance_to, at_least_one, detect_traversal,
}

not-false : (b : Bool) → not b ≡ false → b ≡ true
not-false b h = ground arith

module _ {D : Type 0} ⦃d : Decimal D⦄ where
  -- An opening under the area or over it, how far, and the way through.
  abbrev pub OpensOutside : ValueArea D → TraversalSetup D → Type 0
  OpensOutside va s =
      ((s.open_today ≺ va.low) × (s.open_distance ≡ va.low ⊖ s.open_today) × (s.direction ≡ long))
      ⊎ ((va.low ≼ s.open_today)
          × (va.high ≺ s.open_today)
          × (s.open_distance ≡ s.open_today ⊖ va.high)
          × (s.direction ≡ short))

  -- The first candle of today opened outside of the area, and the last candles, but not the one before
  -- them, closed inside.
  abbrev pub IsReentry :
      NewYork → ValueArea D → List (Candle D) → ValueParameters D → TraversalSetup D → Type 0
  IsReentry ny va candles params s =
      let bars = at_least_one params.acceptance_bars in
      ((first : Candle D) × (StartsDay ny candles (current_day_start ny candles) first
          × (s.open_today ≡ first.«open»)))
      × OpensOutside va s
      × (all_inside va (drop (length candles - bars) candles) ≡ true)
      × ((before : Candle D) × ((get_elem? candles (length candles - bars - 1) ≡ some before)
            × (contains va before.close ≡ false)))

  opens-OpensOutside :
      (va : ValueArea D) (bar : Candle D) (o : D)
      → contains va o ≡ false
      → OpensOutside va (record {
        direction = side_of va o;
        bar = bar;
        open_today = o;
        open_distance = distance_to va o;
      })
  opens-OpensOutside va bar o h = elim (Bool-cases (lt o va.low)) [
    | inl under ↦ inl (ground arith, rw under refl, rw under refl)
    | inr e ↦ inr (ground arith, ground arith, rw e refl, rw e refl)
  ]

  pub detect_traversal-IsReentry :
      (ny : NewYork) (candles : List (Candle D)) (va : ValueArea D) (params : ValueParameters D)
      (s : TraversalSetup D)
      → detect_traversal ny candles va params ≡ go_on s
      → IsReentry ny va candles params s
  unfolding detect_traversal
  detect_traversal-IsReentry ny candles va params s h =
      let n = length candles in
      let today_start = current_day_start ny candles in
      let bars = at_least_one params.acceptance_bars in
      let (first, (e0, h0)) = bind-go_on (needed (get_elem? candles today_start)) _ s h in
      let (outside, h1) =
        reject_if-go_on (contains va first.«open») RejectionReason.open_inside_value_area _ s h0 in
      let (enough, h2) =
        reject_if-go_on (ltb n (bars + 1) || ltb (n - bars) today_start)
          RejectionReason.no_value_area_reentry _ s h1 in
      let (inside, h3) =
        reject_if-go_on (not (all_inside va (drop (n - bars) candles)))
          RejectionReason.no_value_area_reentry _ s h2 in
      let (before, (e4, h4)) = bind-go_on (needed (get_elem? candles (n - bars - 1))) _ s h3 in
      let (out, h5) =
        reject_if-go_on (contains va before.close) RejectionReason.no_value_area_reentry _ s h4 in
      let (bar, (e6, h6)) = bind-go_on (needed (get_elem? candles (n - 1))) _ s h5 in
      let built : TraversalSetup D = record {
        direction = side_of va first.«open»;
        bar = bar;
        open_today = first.«open»;
        open_distance = distance_to va first.«open»;
      } in
      subst (IsReentry ny va candles params) (go_on-inj built s h6) (
        (
          first,
          (
            current_day_start-StartsDay ny candles first
                (needed-go_on (get_elem? candles today_start) first e0),
            refl,
          ),
        ),
        opens-OpensOutside va bar first.«open» outside,
        not-false (all_inside va (drop (n - bars) candles)) inside,
        (before, (needed-go_on (get_elem? candles (n - bars - 1)) before e4, out)),
      )
