-- ===== src/TradeTracker/Invariant.antt =====
-- The invariant of the fill tracker, and what a closed trade says of the fills.
use daytradebot.Base.{
  ℕ, ◌≡◌, refl, Option, none, some, arith, inl, inr, Bool-cases, Option-cases, ◌⊎◌, subst,
}
use daytradebot.Decimal.{Decimal, ◌⊖◌, le, ◌≼◌, ◌≺◌, IsOrdered, IsRounded, le_refl, le_of_lt}
use daytradebot.Domain.Signals.{Direction, long, short}
use daytradebot.Domain.Orders.{OrderSide, buy, sell}
use daytradebot.TradeTracker.{FillTracker, TrackerFill, ClosedTrade, new_tracker, on_fill, book}

side-cases : (s : OrderSide) → (s ≡ buy) ⊎ (s ≡ sell)
side-cases buy = inl refl
side-cases sell = inr refl

module _ {D : Type 0} ⦃d : Decimal D⦄ where
  abbrev IsValidAt : Option Direction → FillTracker D → Type 0
  IsValidAt none t = t ≡ new_tracker
  IsValidAt (some _) t =
      (d.nought ≺ t.entry_qty) × (d.nought ≼ t.exit_qty) × (t.exit_qty ≺ t.entry_qty)

  -- A tracker with a position holds more than has been sold back; one without holds nothing at all.
  abbrev pub IsValid : FillTracker D → Type 0
  IsValid t = IsValidAt t.direction t

  -- Booking leaves a positive quantity on the entry side, and a position with a direction.
  abbrev IsBooked : FillTracker D → Type 0
  IsBooked t =
      (d.nought ≺ t.entry_qty)
      × (d.nought ≼ t.exit_qty)
      × ((dir : Direction) × (t.direction ≡ some dir))

  module _ (order : IsOrdered D) (rounds : IsRounded D) where
    open rounds use {add_pos, add_nonneg, add_pos_right}

    book_first :
        (fill : TrackerFill D) → d.nought ≺ fill.quantity → IsBooked (book new_tracker fill)
    unfolding book
    book_first fill h = elim (side-cases fill.side) [
      | inl e ↦ rw (e, ◌≺◌) (add_pos_right _ _ (le_refl order _) h, le_refl order _, (long, refl))
      | inr e ↦ rw (e, ◌≺◌) (add_pos_right _ _ (le_refl order _) h, le_refl order _, (short, refl))
    ]

    book_open :
        (t : FillTracker D) (fill : TrackerFill D) (dir : Direction)
        → t.direction ≡ some dir
        → IsValidAt (some dir) t
        → d.nought ≺ fill.quantity
        → IsBooked (book t fill)
    unfolding book
    book_open t fill dir e (p, q, r) h =
        let fits = le_of_lt order d.nought fill.quantity h in
        let bought = add_pos t.entry_qty fill.quantity p fits in
        let sold = add_nonneg t.exit_qty fill.quantity q fits in
        (ground arith, ground arith, (dir, ground arith))

    book-IsBooked :
        (t : FillTracker D) (fill : TrackerFill D)
        → IsValid t
        → d.nought ≺ fill.quantity
        → IsBooked (book t fill)
    book-IsBooked t fill v h = elim (Option-cases t.direction) [
      | inl e ↦
          let fresh : t ≡ new_tracker = subst (λ o. IsValidAt o t) e v in
          rw fresh (book_first fill h)
      | inr (dir, e) ↦ book_open t fill dir e (subst (λ o. IsValidAt o t) e v) h
    ]

    -- With a total order and sums that keep signs, a valid tracker is valid after any fill, the one
    -- that closes the position and the one without a quantity included.
    pub on_fill-IsValid :
        (t : FillTracker D) (fill : TrackerFill D) (now : ℕ)
        → IsValid t
        → IsValid (on_fill t fill now).0
    unfolding on_fill
    on_fill-IsValid t fill now v = elim (Bool-cases (le fill.quantity d.nought)) [
      | inl ignored ↦ rw (ignored) v
      | inr booked ↦
          let (p, q, (dir, e)) = book-IsBooked t fill v booked in
          elim (Bool-cases (le (book t fill).entry_qty (book t fill).exit_qty)) [
            | inl done ↦ rw (booked, done) refl
            | inr held ↦ rw (booked, held, e) (p, q, held)
          ]
    ]

    -- What a closed trade says of the tracker `t'` with the last fill booked: both divisors of the
    -- average prices are positive, the trade is of the whole entry quantity, which the exits cover,
    -- and the net result is the gross one less the commissions.
    abbrev pub IsSettled : FillTracker D → ClosedTrade D → Type 0
    IsSettled t' trade =
        (d.nought ≺ t'.entry_qty)
        × (d.nought ≺ t'.exit_qty)
        × (trade.quantity ≡ t'.entry_qty)
        × (t'.entry_qty ≼ t'.exit_qty)
        × (trade.net_pnl ≡ trade.gross_pnl ⊖ t'.commissions)
