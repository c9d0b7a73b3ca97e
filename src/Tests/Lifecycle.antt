-- ===== src/Tests/Lifecycle.antt =====
-- The life of a symbol at the simulated broker on concrete operations.
use daytradebot.Base.{◌+◌, List, [], ◌∷◌, lookup, insert, erase, string_key}
use daytradebot.Decimal.Integers.{ℤ, integers}
use daytradebot.Domain.Orders.{stop_entry_expired}
use daytradebot.Domain.Trades.{new_position}
use daytradebot.Broker.{
  new_broker, place_order, set_market_candle, await_entry, place_by_type, place_bracket,
  enter_at_candle, work_entry, fill_entry, exit_at_candle, mark, candle_hit, book_exit,
}
use daytradebot.Broker.Lifecycle.{Operation, see_candle, place, Run, flat, phase_of}
use daytradebot.Broker.Lifecycle.Refinement.{drive, drive_all, drive_all-Run}
use daytradebot.Tests.{ten, bar, broker_config}
use daytradebot.Tests.Broker.{bracket, fresh, fresh-IsExclusive}

-- A bracket waits for a candle, fills on the next one, and reaches its target on the third.
abbrev through : List (Operation ℤ)
through =
    place 7 bracket
    ∷ see_candle (bar (ten + 300) 99 101 99 100)
    ∷ see_candle (bar (ten + 600) 102 104 101 103)
    ∷ see_candle (bar (ten + 900) 104 110 104 109)
    ∷ []

drive_all-Run_example : Run through flat 0 flat 1
unfolding drive drive_all phase_of new_broker place_order place_by_type place_bracket await_entry
    set_market_candle enter_at_candle work_entry fill_entry exit_at_candle mark candle_hit book_exit
    new_position stop_entry_expired lookup insert erase
drive_all-Run_example = drive_all-Run broker_config "X" through fresh fresh-IsExclusive
