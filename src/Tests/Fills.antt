-- ===== src/Tests/Fills.antt =====
-- The exit by time and the fill tracker on concrete inputs.
use daytradebot.Base.{
  ◌+◌, ◌≡◌, refl, true, false, not, ◌&&◌, ◌||◌, [], ◌∷◌, ◌++◌, leb, length, List,
}
use daytradebot.Decimal.Integers.{ℤ, pos, integers, ℤ-IsOrdered, ℤ-IsRounded}
use daytradebot.Domain.Signals.{long}
use daytradebot.Domain.Orders.{buy, sell}
use daytradebot.TimeExit.{TimeExitTracker, on_candle_close}
use daytradebot.TimeExit.Validation.{run, any_reaches, on_candle_close-run}
use daytradebot.TradeTracker.{FillTracker, TrackerFill, new_tracker, on_fill}
use daytradebot.TradeTracker.Invariant.{IsValid, on_fill-IsValid}

-- A long from 100 with a risk of 2, to be validated within three candles.
abbrev watched : TimeExitTracker ℤ
watched = record {
  config = record { enabled = true; min_r = pos 1; candles = 3 };
  tracking = true;
  entry_price = pos 100;
  risk_per_unit = pos 2;
  direction = long;
  candles_since_fill = 0;
  validated = false;
}

abbrev closes : List ℤ
closes = pos 100 ∷ pos 101 ∷ []

on_candle_close-run_example :
    (on_candle_close (run watched closes) (pos 99)).1
    ≡ (true && true)
      && (not (false || any_reaches watched (closes ++ (pos 99 ∷ [])))
          && leb 3 (0 + length closes + 1))
on_candle_close-run_example = on_candle_close-run watched closes (pos 99)

-- The third close without validation asks for the exit.
third_close : (on_candle_close (run watched closes) (pos 99)).1 ≡ true
unfolding run on_candle_close
third_close = refl

abbrev bought : TrackerFill ℤ
bought = record {
  side = buy;
  price = pos 100;
  quantity = pos 10;
  commission = pos 1;
  timestamp = 1;
}

abbrev sold : TrackerFill ℤ
sold = record bought { side = sell; price = pos 104; timestamp = 2 }

abbrev holding : FillTracker ℤ
holding = (on_fill new_tracker bought 1).0

holding-IsValid : IsValid holding
holding-IsValid = on_fill-IsValid ℤ-IsOrdered ℤ-IsRounded new_tracker bought 1 refl

on_fill-IsValid_example : IsValid (on_fill holding sold 2).0
on_fill-IsValid_example = on_fill-IsValid ℤ-IsOrdered ℤ-IsRounded holding sold 2 holding-IsValid
