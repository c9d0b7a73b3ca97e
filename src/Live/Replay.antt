-- ===== src/Live/Replay.antt =====
-- Draining events that were drained before: the database answers a fill it has as a duplicate, and the
-- live worker passes it over.
use daytradebot.Base.{
  ℕ, ◌≡◌, ◌⊎◌, refl, ap, ◌∙◌, sym, subst, String, Bool, true, false, Option, none, some, List, [],
  ◌∷◌, All, arith, string_key, inl, inr,
}
use daytradebot.Decimal.{Decimal}
use daytradebot.Domain.Orders.{Fill, OrderEvent, fill_event, status_update}
use daytradebot.Domain.Trades.{Trade}
use daytradebot.TradeTracker.{FillTracker, ClosedTrade, on_fill}
use daytradebot.Live.State.{PlacedOrderInfo, Notify, LiveAlert, trade_message, trade_closed}
use daytradebot.Live.Events.{
  SavedFill, inserted, duplicate, save_failed, LiveRepos, LiveRun, accepted, live_trade, after_save,
  mark_row, finalize_live_trade, finalize_closed, after_fill, take_fill, drain_event,
  drain_order_events, tracker_fill,
}

module _ {D : Type 0} ⦃d : Decimal D⦄ where
  accepted_without_order : (symbol : String) (e : OrderEvent D) → accepted symbol e none ≡ none
  accepted_without_order symbol (status_update id status) = refl
  accepted_without_order symbol (fill_event id f) = ground arith

module _ {D W : Type 0} ⦃d : Decimal D⦄ (rs : LiveRepos W D) (notify : Notify W) (symbol : String)
    (now : ℕ) where
  -- The tracked order is what it was, or none.
  IsKeptOrGone : LiveRun W D → LiveRun W D → Type 0
  IsKeptOrGone r r' = (r'.fills.open_order ≡ r.fills.open_order) ⊎ (r'.fills.open_order ≡ none)

  finalize_closed-IsKeptOrGone :
      (ctx : PlacedOrderInfo D) (r : LiveRun W D) (t : FillTracker D × Option (ClosedTrade D))
      → IsKeptOrGone r (finalize_closed (some rs) notify symbol now ctx r t)
  unfolding IsKeptOrGone finalize_live_trade
  finalize_closed-IsKeptOrGone ctx r (tracker, none) = inl refl
  finalize_closed-IsKeptOrGone ctx r (tracker, some t) = inr refl

  after_fill-IsKeptOrGone :
      (ctx : PlacedOrderInfo D) (f : Fill D) (r : LiveRun W D) (p : W × SavedFill)
      → IsKeptOrGone r (after_fill (some rs) notify symbol now ctx f r p)
  unfolding IsKeptOrGone
  after_fill-IsKeptOrGone ctx f r (w, inserted) =
      finalize_closed-IsKeptOrGone ctx (record r { world = w })
        (on_fill r.fills.tracker (tracker_fill f) now)
  after_fill-IsKeptOrGone ctx f r (w, duplicate) = inl refl
  after_fill-IsKeptOrGone ctx f r (w, save_failed) = inl refl

  take_fill-IsKeptOrGone :
      (x : Option (PlacedOrderInfo D × Fill D)) (r : LiveRun W D)
      → IsKeptOrGone r (take_fill (some rs) notify symbol now (some rs) x r)
  unfolding IsKeptOrGone
  take_fill-IsKeptOrGone none r = inl refl
  take_fill-IsKeptOrGone (some (ctx, f)) r =
      after_fill-IsKeptOrGone ctx f r (rs.save_fill f r.world)

  -- What the database knows of the fills: it knows a fill once it is saved, and answers it as a
  -- duplicate from then on.
  module _ (known : Fill D → W → Type 0)
      (save_knows : (f : Fill D) (w : W) → known f (rs.save_fill f w).0)
      (knows_duplicate : (f : Fill D) (w : W) → known f w → (rs.save_fill f w).1 ≡ duplicate)
      (save_keeps : (f g : Fill D) (w : W) → known f w → known f (rs.save_fill g w).0)
      (trade_keeps : (f : Fill D) (t : Trade D) (forced : Bool) (w : W)
        → known f w
        → known f (rs.save_trade t forced w).0)
      (mark_keeps : (f : Fill D) (id : ℕ) (q p : D) (w : W)
        → known f w
        → known f (rs.mark_filled id q p w))
      (notify_keeps : (f : Fill D) (a : LiveAlert) (w : W) → known f w → known f (notify a w)) where
    after_save_keeps :
        (f : Fill D) (r : LiveRun W D) (p : W × Bool)
        → known f p.0
        → known f (after_save (some rs) notify symbol now r p).world
    after_save_keeps f r (w, true) k = k
    after_save_keeps f r (w, false) k = notify_keeps f _ w k

    mark_row_keeps :
        (f : Fill D) (id : Option ℕ) (t : ClosedTrade D) (r : LiveRun W D)
        → known f r.world
        → known f (mark_row (some rs) notify symbol now rs id t r).world
    mark_row_keeps f none t r k = k
    mark_row_keeps f (some id) t r k = mark_keeps f id t.quantity t.entry_price r.world k

    finalize_live_trade_keeps :
        (f : Fill D) (ctx : PlacedOrderInfo D) (t : ClosedTrade D) (r : LiveRun W D)
        → known f r.world
        → known f (finalize_live_trade (some rs) notify symbol now ctx t r).world
    unfolding finalize_live_trade
    finalize_live_trade_keeps f ctx t r k =
        let trade = live_trade symbol r.fills ctx t in
        let r0 : LiveRun W D = record r {
          fills = record r.fills { time_exit_triggered = false; flatten_triggered = false };
        } in
        let p = rs.save_trade trade r.fills.flatten_triggered r.world in
        let r1 = after_save (some rs) notify symbol now r0 p in
        let r2 = mark_row (some rs) notify symbol now rs ctx.order_db_id t r1 in
        let k1 =
          after_save_keeps f r0 p (trade_keeps f trade r.fills.flatten_triggered r.world k) in
        let told =
          notify_keeps f trade_message r2.world (mark_row_keeps f ctx.order_db_id t r1 k1) in
        ground (arith, told, notify_keeps f trade_closed (notify trade_message r2.world) told)

    finalize_closed_keeps :
        (f : Fill D) (ctx : PlacedOrderInfo D) (r : LiveRun W D)
        (t : FillTracker D × Option (ClosedTrade D))
        → known f r.world
        → known f (finalize_closed (some rs) notify symbol now ctx r t).world
    finalize_closed_keeps f ctx r (tracker, none) k = k
    finalize_closed_keeps f ctx r (tracker, some t) k =
        finalize_live_trade_keeps f ctx t
          (record r { fills = record r.fills { tracker = tracker } }) k

    after_fill_keeps :
        (f : Fill D) (ctx : PlacedOrderInfo D) (g : Fill D) (r : LiveRun W D) (p : W × SavedFill)
        → known f p.0
        → known f (after_fill (some rs) notify symbol now ctx g r p).world
    after_fill_keeps f ctx g r (w, inserted) k =
        finalize_closed_keeps f ctx (record r { world = w })
          (on_fill r.fills.tracker (tracker_fill g) now) k
    after_fill_keeps f ctx g r (w, duplicate) k = k
    after_fill_keeps f ctx g r (w, save_failed) k = notify_keeps f _ w k

    take_fill_keeps :
        (f : Fill D) (x : Option (PlacedOrderInfo D × Fill D)) (r : LiveRun W D)
        → known f r.world
        → known f (take_fill (some rs) notify symbol now (some rs) x r).world
    take_fill_keeps f none r k = k
    take_fill_keeps f (some (ctx, g)) r k =
        after_fill_keeps f ctx g r (rs.save_fill g r.world) (save_keeps f g r.world k)

    take_fill_knows :
        (x : Option (PlacedOrderInfo D × Fill D)) (y : PlacedOrderInfo D × Fill D) (r : LiveRun W D)
        → x ≡ some y
        → known y.1 (take_fill (some rs) notify symbol now (some rs) x r).world
    take_fill_knows none y r e = cc
    take_fill_knows (some (ctx, g)) (c, f) r e =
        after_fill_keeps f ctx g r (rs.save_fill g r.world)
          (subst (λ h. known h (rs.save_fill g r.world).0) (ground arith) (save_knows g r.world))

    -- The event would be passed over, or the database has its fill.
    abbrev IsDone : LiveRun W D → OrderEvent D → Type 0
    IsDone r e =
        (x : PlacedOrderInfo D × Fill D)
        → accepted symbol e r.fills.open_order ≡ some x
        → known x.1 r.world

    abbrev drained : LiveRun W D → OrderEvent D → LiveRun W D
    drained = drain_event (some rs) notify symbol now

    accepted_before :
        (e : OrderEvent D) (r r' : LiveRun W D) (x : PlacedOrderInfo D × Fill D)
        → IsKeptOrGone r r'
        → accepted symbol e r'.fills.open_order ≡ some x
        → accepted symbol e r.fills.open_order ≡ some x
    unfolding IsKeptOrGone
    accepted_before e r r' x (inl same) h = ap (accepted symbol e) (sym same) ∙ h
    accepted_before e r r' x (inr gone) h =
        cc (ap (accepted symbol e) gone, accepted_without_order symbol e, h)

    drained_keeps-IsDone :
        (e g : OrderEvent D) (r : LiveRun W D) → IsDone r e → IsDone (drained r g) e
    drained_keeps-IsDone e g r done x h =
        let o = accepted symbol g r.fills.open_order in
        take_fill_keeps x.1 o r
          (done x (accepted_before e r (drained r g) x (take_fill-IsKeptOrGone o r) h))

    drained-IsDone : (e : OrderEvent D) (r : LiveRun W D) → IsDone (drained r e) e
    drained-IsDone e r x h =
        let o = accepted symbol e r.fills.open_order in
        take_fill_knows o x r (accepted_before e r (drained r e) x (take_fill-IsKeptOrGone o r) h)

    after_fill_duplicate :
        (ctx : PlacedOrderInfo D) (f : Fill D) (r : LiveRun W D) (p : W × SavedFill)
        → p.1 ≡ duplicate
        → ((after_fill (some rs) notify symbol now ctx f r p).fills ≡ r.fills)
          × ((after_fill (some rs) notify symbol now ctx f r p).risk ≡ r.risk)
    after_fill_duplicate ctx f r (w, inserted) h = cc
    after_fill_duplicate ctx f r (w, duplicate) h = (refl, refl)
    after_fill_duplicate ctx f r (w, save_failed) h = cc

    take_fill_again :
        (x : Option (PlacedOrderInfo D × Fill D)) (r : LiveRun W D)
        → ((y : PlacedOrderInfo D × Fill D) → x ≡ some y → known y.1 r.world)
        → ((take_fill (some rs) notify symbol now (some rs) x r).fills ≡ r.fills)
          × ((take_fill (some rs) notify symbol now (some rs) x r).risk ≡ r.risk)
    take_fill_again none r done = (refl, refl)
    take_fill_again (some (ctx, f)) r done =
        after_fill_duplicate ctx f r (rs.save_fill f r.world)
          (knows_duplicate f r.world (done (ctx, f) refl))

    drain_keeps-IsDone :
        (es : List (OrderEvent D)) (e : OrderEvent D) (r : LiveRun W D)
        → IsDone r e
        → IsDone (drain_order_events (some rs) notify symbol now r es) e
    unfolding drain_order_events
    drain_keeps-IsDone [] e r done = done
    drain_keeps-IsDone (g ∷ es) e r done =
        drain_keeps-IsDone es e (drained r g) (drained_keeps-IsDone e g r done)

    each_keeps-IsDone :
        (es : List (OrderEvent D)) (g : OrderEvent D) (r : LiveRun W D)
        → All (IsDone r) es
        → All (IsDone (drained r g)) es
    each_keeps-IsDone [] g r done = tt
    each_keeps-IsDone (e ∷ es) g r (one, done) =
        (drained_keeps-IsDone e g r one, each_keeps-IsDone es g r done)

    drain-IsDone :
        (es : List (OrderEvent D)) (r : LiveRun W D)
        → All (IsDone (drain_order_events (some rs) notify symbol now r es)) es
    unfolding drain_order_events
    drain-IsDone [] r = tt
    drain-IsDone (e ∷ es) r =
        (drain_keeps-IsDone es e (drained r e) (drained-IsDone e r), drain-IsDone es (drained r e))

    drain_again :
        (es : List (OrderEvent D)) (r : LiveRun W D)
        → All (IsDone r) es
        → ((drain_order_events (some rs) notify symbol now r es).fills ≡ r.fills)
          × ((drain_order_events (some rs) notify symbol now r es).risk ≡ r.risk)
    unfolding drain_order_events
    drain_again [] r done = (refl, refl)
    drain_again (e ∷ es) r (one, done) =
        let (same_fills, same_risk) =
          take_fill_again (accepted symbol e r.fills.open_order) r one in
        let (fills, risk) = drain_again es (drained r e) (each_keeps-IsDone es e r done) in
        (fills ∙ same_fills, risk ∙ same_risk)

    -- Where the database knows every fill that it was given and answers a fill it knows as a duplicate,
    -- draining the same events a second time changes neither the tracked position and order nor the
    -- risk of the day: no result is counted twice.
    pub drain_order_events_replay :
        (es : List (OrderEvent D)) (r : LiveRun W D)
        → (let once = drain_order_events (some rs) notify symbol now r es in
            let twice = drain_order_events (some rs) notify symbol now once es in
            (twice.fills ≡ once.fills) × (twice.risk ≡ once.risk))
    drain_order_events_replay es r =
        drain_again es (drain_order_events (some rs) notify symbol now r es) (drain-IsDone es r)
