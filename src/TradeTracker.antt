-- ===== src/TradeTracker.antt =====
-- The fills of a position, aggregated into a closed trade:
-- crates/trader-core/src/execution/trade_tracker.rs.
pub mod Invariant
use daytradebot.Base.{ℕ, Bool, true, false, Option, none, some, if◌then◌else◌}
use daytradebot.Decimal.{Decimal, ◌⊕◌, ◌⊖◌, ◌⊗◌, ◌⊘◌, le}
use daytradebot.Domain.Signals.{Direction, long, short}
use daytradebot.Domain.Orders.{OrderSide, buy, sell}
use daytradebot.Domain.Trades.{ExitReason}

pub record TrackerFill (D : Type 0) : Type 0 where
  pub side : OrderSide
  pub price : D
  pub quantity : D
  pub commission : D
  pub timestamp : ℕ

pub record ClosedTrade (D : Type 0) : Type 0 where
  pub direction : Direction
  pub quantity : D
  pub entry_price : D
  pub exit_price : D
  pub entry_time : ℕ
  pub exit_time : ℕ
  pub gross_pnl : D
  pub commissions : D
  pub net_pnl : D

pub record FillTracker (D : Type 0) : Type 0 where
  pub direction : Option Direction
  pub entry_qty : D
  pub entry_cost : D
  pub entry_time : Option ℕ
  pub exit_qty : D
  pub exit_value : D
  pub exit_time : Option ℕ
  pub commissions : D

abbrev pub get_or {ℓ} : {A : Type ℓ} → Option A → A → A
get_or none a = a
get_or (some a) _ = a

abbrev pub direction_of : OrderSide → Direction
direction_of buy = long
direction_of sell = short

abbrev pub is_entry_side : Direction → OrderSide → Bool
is_entry_side long buy = true
is_entry_side long sell = false
is_entry_side short buy = false
is_entry_side short sell = true

module _ {D : Type 0} ⦃d : Decimal D⦄ where
  hits_stop : Direction → D → D → D → Bool
  hits_stop long exit_price stop_price tolerance = le exit_price (stop_price ⊕ tolerance)
  hits_stop short exit_price stop_price tolerance = le (stop_price ⊖ tolerance) exit_price

  hits_target : Direction → D → Option D → D → Bool
  hits_target dir exit_price none tolerance = false
  hits_target long exit_price (some target) tolerance = le (target ⊖ tolerance) exit_price
  hits_target short exit_price (some target) tolerance = le exit_price (target ⊕ tolerance)

  -- `classify_exit_reason`: the tolerance is two ticks of a hundredth.
  unfoldable pub classify_exit_reason : Direction → D → D → Option D → ExitReason
  unfolding hits_stop hits_target
  classify_exit_reason dir exit_price stop_price target_price =
      let tolerance = (d.of_ℕ 1 ⊘ d.of_ℕ 100) ⊗ d.of_ℕ 2 in
      if hits_stop dir exit_price stop_price tolerance
      then ExitReason.stop
      else if hits_target dir exit_price target_price tolerance
      then ExitReason.target
      else ExitReason.manual

  -- `FillTracker::default`
  abbrev pub new_tracker : FillTracker D
  new_tracker = record {
    direction = none;
    entry_qty = d.nought;
    entry_cost = d.nought;
    entry_time = none;
    exit_qty = d.nought;
    exit_value = d.nought;
    exit_time = none;
    commissions = d.nought;
  }

  unfoldable pub is_open : FillTracker D → Bool
  is_open t = elim t.direction [ none ↦ false | some _ ↦ true ]

  gross : Direction → D → D → D → D
  gross long entry exit quantity = (exit ⊖ entry) ⊗ quantity
  gross short entry exit quantity = (entry ⊖ exit) ⊗ quantity

  -- `close`, at the instant `now`; the tracker starts afresh.
  unfoldable pub close : FillTracker D → ℕ → ClosedTrade D
  unfolding gross
  close t now =
      let direction = get_or t.direction long in
      let entry_price = t.entry_cost ⊘ t.entry_qty in
      let exit_price = t.exit_value ⊘ t.exit_qty in
      let gross_pnl = gross direction entry_price exit_price t.entry_qty in
      record {
        direction = direction;
        quantity = t.entry_qty;
        entry_price = entry_price;
        exit_price = exit_price;
        entry_time = get_or t.entry_time now;
        exit_time = get_or t.exit_time now;
        gross_pnl = gross_pnl;
        commissions = t.commissions;
        net_pnl = gross_pnl ⊖ t.commissions;
      }

  -- The tracker with the fill booked on its side.
  unfoldable pub book : FillTracker D → TrackerFill D → FillTracker D
  book t fill =
      let direction = get_or t.direction (direction_of fill.side) in
      if is_entry_side direction fill.side
      then record t {
        direction = some direction;
        commissions = t.commissions ⊕ fill.commission;
        entry_qty = t.entry_qty ⊕ fill.quantity;
        entry_cost = t.entry_cost ⊕ fill.price ⊗ fill.quantity;
        entry_time = some (get_or t.entry_time fill.timestamp);
      }
      else record t {
        direction = some direction;
        commissions = t.commissions ⊕ fill.commission;
        exit_qty = t.exit_qty ⊕ fill.quantity;
        exit_value = t.exit_value ⊕ fill.price ⊗ fill.quantity;
        exit_time = some fill.timestamp;
      }

  unfoldable pub on_fill :
      FillTracker D → TrackerFill D → ℕ → FillTracker D × Option (ClosedTrade D)
  on_fill t fill now =
      if le fill.quantity d.nought
      then (t, none)
      else (let t' = book t fill in
          if le t'.entry_qty t'.exit_qty then (new_tracker, some (close t' now)) else (t', none))
