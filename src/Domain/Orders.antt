-- ===== src/Domain/Orders.antt =====
-- Orders and fills: crates/trader-domain/src/orders.rs. Ids in the database, error texts, json
-- metadata and correlation ids are left out.
use daytradebot.Base.{ℕ, String, Bool, true, false, Option, none, some, leb, if◌then◌else◌}
use daytradebot.Decimal.{Decimal, ◌⊖◌, le}

pub data OrderType : Type 0 where
  market limit stop stop_limit bracket : OrderType

pub data OrderSide : Type 0 where
  buy sell : OrderSide

pub data EntryOrderType : Type 0 where
  stop limit : EntryOrderType

pub data OrderStatus : Type 0 where
  pending submitted accepted partially_filled filled cancelled rejected expired : OrderStatus

pub data TimeInForce : Type 0 where
  day gtc ioc fok : TimeInForce

pub record Order (D : Type 0) : Type 0 where
  pub signal_id : Option ℕ
  pub symbol : String
  pub side : OrderSide
  pub order_type : OrderType
  pub entry_order_type : EntryOrderType
  pub status : OrderStatus
  pub time_in_force : TimeInForce
  pub quantity : D
  pub filled_quantity : D
  pub price : Option D
  pub stop_price : Option D
  pub target_price : Option D
  pub avg_fill_price : Option D
  pub submitted_at : Option ℕ
  pub filled_at : Option ℕ
  pub cancelled_at : Option ℕ

pub record Fill (D : Type 0) : Type 0 where
  pub order_id : ℕ
  pub symbol : String
  pub side : OrderSide
  pub fill_price : D
  pub quantity : D
  pub commission : D
  pub fees : D
  pub broker_fill_id : Option String
  pub timestamp : ℕ

-- What a broker reports of an order, by the id it has there.
pub data OrderEvent (D : Type 0) : Type 0 where
  fill_event : String → Fill D → OrderEvent D
  status_update : String → OrderStatus → OrderEvent D

pub is_filled_status : OrderStatus → Bool
is_filled_status filled = true
is_filled_status _ = false

module _ {D : Type 0} ⦃d : Decimal D⦄ where
  -- `Order::new`; `none` is `InvalidQuantity`.
  unfoldable pub new_order : String → OrderSide → OrderType → D → Option (Order D)
  new_order symbol side order_type quantity =
      if le quantity d.nought
      then none
      else some (record {
        signal_id = none;
        symbol = symbol;
        side = side;
        order_type = order_type;
        entry_order_type = EntryOrderType.stop;
        status = OrderStatus.pending;
        time_in_force = day;
        quantity = quantity;
        filled_quantity = d.nought;
        price = none;
        stop_price = none;
        target_price = none;
        avg_fill_price = none;
        submitted_at = none;
        filled_at = none;
        cancelled_at = none;
      })

  -- `Order::remaining_quantity` and `Order::is_filled`
  unfoldable pub remaining_quantity : Order D → D
  remaining_quantity o = o.quantity ⊖ o.filled_quantity

  unfoldable pub is_filled : Order D → Bool
  unfolding is_filled_status
  is_filled o = is_filled_status o.status

-- The shared rule by which a stop entry expires.
unfoldable pub stop_entry_expired : ℕ → ℕ → Bool
stop_entry_expired candles_waited validity = leb validity candles_waited
