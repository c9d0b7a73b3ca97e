-- ===== src/Broker/Lifecycle.antt =====
-- The life of one symbol at the simulated broker, as a machine of three phases that counts trades.
pub mod Exits
pub mod Entries
pub mod Placing
pub mod Refinement
use daytradebot.Base.{
  ℕ, ◌+◌, ◌≡◌, ◌≢◌, refl, subst, ap, sym, ◌∙◌, inl, inr, String, Option, none, some, List, [], ◌∷◌,
  ◌++◌, length, length-append, arith, Bool-cases, Option-cases, lookup, erase, lookup-erase,
  lookup-insert, lookup-insert_self, lookup-erase_self, string_key, not, ◌&&◌,
}
use daytradebot.Decimal.{Decimal, le}
use daytradebot.Domain.Market.{Candle}
use daytradebot.Domain.Orders.{Order, OrderType, EntryOrderType, is_filled, stop_entry_expired}
use daytradebot.Domain.Trades.{ExitReason, Position, new_position}
use daytradebot.Broker.State.{
  OrderId, order_id_key, PendingEntry, PendingExit, SimulatedState, SimulatedBrokerConfig,
}
use daytradebot.Broker.Prices.{
  mark, price_hit, exit_at_price, book_exit, set_market_price, close_position_at_market,
}
use daytradebot.Broker.Market.{
  is_triggered, is_overshot, tick, candle_hit, fill_entry, work_entry, enter_at_candle,
  exit_at_candle, set_market_candle,
}
use daytradebot.Broker.Orders.{
  open_position, await_entry, place_bracket, place_by_type, place_order, cancel_order,
}
use daytradebot.Broker.Fits.{IsExclusive, no_position}

pub data Phase : Type 0 where
  flat : Phase
  awaiting : Phase
  holding : Phase

-- What is done to the broker: prices of one symbol, and orders for any.
pub data Operation (D : Type 0) : Type 0 where
  see_candle : Candle D → Operation D
  see_price : D → ℕ → Operation D
  leave_at_market : D → ExitReason → Operation D
  place : ℕ → Order D → Operation D
  cancel : OrderId → ℕ → Operation D

-- A position is left: it was held, and there is one trade more.
pub data Leave : Phase → ℕ → Phase → ℕ → Type 0 where
  remains : {a : Phase} {n m : ℕ} → n ≡ m → Leave a n a m
  leaves : {n m : ℕ} → m ≡ n + 1 → Leave holding n flat m

-- A waiting entry stays, goes or fills.
pub data Enter : Phase → Phase → Type 0 where
  keeps : {a : Phase} → Enter a a
  lapses : Enter awaiting flat
  enters : Enter awaiting holding

-- An order is refused, waits or fills.
pub data Place : Phase → Phase → Type 0 where
  refused : {a : Phase} → Place a a
  arms : Place flat awaiting
  opens : Place flat holding

-- The machine: what an operation may do to the phase and to the number of trades.
pub data Step {D : Type 0} : Operation D → Phase → ℕ → Phase → ℕ → Type 0 where
  candle_seen :
      {c : Candle D} {a b e : Phase} {n m : ℕ}
      → Enter a b
      → Leave b n e m
      → Step (see_candle c) a n e m
  price_seen :
      {p : D} {t : ℕ} {a b : Phase} {n m : ℕ} → Leave a n b m → Step (see_price p t) a n b m
  left_at_market :
      {p : D} {r : ExitReason} {n m : ℕ} → m ≡ n + 1 → Step (leave_at_market p r) holding n flat m
  not_held :
      {p : D} {r : ExitReason} {a : Phase} {n : ℕ}
      → a ≢ holding
      → Step (leave_at_market p r) a n a n
  placed :
      {i : ℕ} {o : Order D} {a b : Phase} {n m : ℕ} → Place a b → n ≡ m → Step (place i o) a n b m
  kept : {i : OrderId} {t : ℕ} {a : Phase} {n : ℕ} → Step (cancel i t) a n a n
  called_off : {i : OrderId} {t n : ℕ} → Step (cancel i t) awaiting n flat n

pub data Run {D : Type 0} : List (Operation D) → Phase → ℕ → Phase → ℕ → Type 0 where
  ended : {a : Phase} {n : ℕ} → Run [] a n a n
  went_on :
      {x : Operation D} {xs : List (Operation D)} {a b c : Phase} {n m l : ℕ}
      → Step x a n b m
      → Run xs b m c l
      → Run (x ∷ xs) a n c l

pub gone : {a b : Phase} {n m : ℕ} → a ≡ holding → b ≡ flat → m ≡ n + 1 → Leave a n b m
gone e f h = rw (e, f) (leaves h)

pub stays : {a b : Phase} {n m : ℕ} → a ≡ b → n ≡ m → Leave a n b m
stays e h = rw e (remains h)

pub lapsed : {a b : Phase} → a ≡ awaiting → b ≡ flat → Enter a b
lapsed e f = rw (e, f) lapses

pub entered : {a b : Phase} → a ≡ awaiting → b ≡ holding → Enter a b
entered e f = rw (e, f) enters

pub kept_on : {a b : Phase} → a ≡ b → Enter a b
kept_on e = rw e keeps

pub unplaced : {a b : Phase} → a ≡ b → Place a b
unplaced e = rw e refused

pub armed : {a b : Phase} → a ≡ flat → b ≡ awaiting → Place a b
armed e f = rw (e, f) arms

pub was_opened : {a b : Phase} → a ≡ flat → b ≡ holding → Place a b
was_opened e f = rw (e, f) opens

module _ {D : Type 0} ⦃d : Decimal D⦄ where
  abbrev pub phase : Option (Position D) → Option (PendingEntry D) → Phase
  phase none none = flat
  phase none (some e) = awaiting
  phase (some p) e = holding

  -- The phase of a symbol, and the number of trades.
  unfoldable pub phase_of : String → SimulatedState D → Phase
  phase_of k st = phase (lookup k st.positions) (lookup k st.pending_entries)

  abbrev pub trades_of : SimulatedState D → ℕ
  trades_of st = length st.closed_trades

  abbrev pub Leaves : String → SimulatedState D → SimulatedState D → Type 0
  Leaves k st st' = Leave (phase_of k st) (trades_of st) (phase_of k st') (trades_of st')

  module _ (k : String) (st : SimulatedState D) where
    pub is_holding : (p : Position D) → lookup k st.positions ≡ some p → phase_of k st ≡ holding
    unfolding phase_of
    is_holding p h = rw h refl

    pub is_flat :
        lookup k st.positions ≡ none → lookup k st.pending_entries ≡ none → phase_of k st ≡ flat
    unfolding phase_of
    is_flat h h' = rw (h, h') refl

    pub is_awaiting :
        (e : PendingEntry D)
        → lookup k st.positions ≡ none
        → lookup k st.pending_entries ≡ some e
        → phase_of k st ≡ awaiting
    unfolding phase_of
    is_awaiting e h h' = rw (h, h') refl

    pub is_not_holding : lookup k st.positions ≡ none → phase_of k st ≢ holding
    unfolding phase_of
    is_not_holding h = ground arith

  pub same_phase :
      (k : String) (st st' : SimulatedState D)
      → lookup k st.positions ≡ lookup k st'.positions
      → lookup k st.pending_entries ≡ lookup k st'.pending_entries
      → phase_of k st ≡ phase_of k st'
  unfolding phase_of
  same_phase k st st' e f = rw (e, f) refl

  pub no_entry :
      (k : String) (st : SimulatedState D) (p : Position D)
      → IsExclusive st
      → lookup k st.positions ≡ some p
      → lookup k st.pending_entries ≡ none
  no_entry k st p h e = ground (arith, h k)
