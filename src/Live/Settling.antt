-- ===== src/Live/Settling.antt =====
-- The guard on a bar that has just closed, in the loop of `run_live`: the bar is evaluated once its
-- values stop changing between two polls, or once the wait has lasted long enough.
use daytradebot.Base.{
  ℕ, ◌+◌, ◌≤◌, ◌<◌, ◌≡◌, ◌≢◌, refl, Bool, false, not, ◌&&◌, Option, none, some, List, [], ◌∷◌,
  length, All, arith, ltb, leb, ◌==◌, if◌then◌else◌,
}
use daytradebot.Decimal.{Decimal, le}
use daytradebot.Domain.Market.{Candle, is_degenerate}
use daytradebot.Live.State.{Notify, bar_abandoned, degenerate_bar_streak}

abbrev pub max_bar_settle_polls : ℕ
max_bar_settle_polls = 30

abbrev pub degenerate_bar_alert_threshold : ℕ
degenerate_bar_alert_threshold = 5

-- A bar that is waited for, as the last poll had it.
pub record PendingBar (D : Type 0) : Type 0 where
  pub timestamp : ℕ
  pub high : D
  pub low : D
  pub close : D
  pub volume : D
  pub polls : ℕ

-- What a poll makes of the oldest bar that is not processed.
pub data Verdict : Type 0 where
  waits abandons evaluates : Verdict

-- The pending bar and the count of abandoned bars in a row.
pub record Feed (D : Type 0) : Type 0 where
  pub pending_bar : Option (PendingBar D)
  pub degenerate_streak : ℕ

module _ {D : Type 0} ⦃d : Decimal D⦄ where
  -- `PendingBar::from_candle`
  abbrev pub from_candle : Candle D → ℕ → PendingBar D
  from_candle c polls = record {
    timestamp = c.timestamp;
    high = c.high;
    low = c.low;
    close = c.close;
    volume = c.volume;
    polls = polls;
  }

  abbrev same_value : D → D → Bool
  same_value a b = le a b && le b a

  abbrev pub same_as_pending : Option (PendingBar D) → Candle D → Bool
  same_as_pending none c = false
  same_as_pending (some p) c =
      p.timestamp == c.timestamp
      && same_value p.high c.high
      && same_value p.low c.low
      && same_value p.close c.close
      && same_value p.volume c.volume

  abbrev pub pending_polls : Option (PendingBar D) → Candle D → ℕ
  pending_polls none c = 0
  pending_polls (some p) c = if p.timestamp == c.timestamp then p.polls + 1 else 0

  unfoldable pub verdict : Option (PendingBar D) → Candle D → Verdict
  verdict pending c =
      if is_degenerate c
      then (if ltb max_bar_settle_polls (pending_polls pending c) then abandons else waits)
      else if not (same_as_pending pending c) && leb (pending_polls pending c) max_bar_settle_polls
      then waits
      else evaluates

  -- The pending bar and the count after a verdict.
  abbrev pub feed_after : Verdict → Feed D → Candle D → Feed D
  feed_after waits f c = record f {
    pending_bar = some (from_candle c (pending_polls f.pending_bar c));
  }
  feed_after abandons f c = record {
    pending_bar = none;
    degenerate_streak = f.degenerate_streak + 1;
  }
  feed_after evaluates f c = record { pending_bar = none; degenerate_streak = 0 }

  abbrev pub announce : {W : Type 0} → Notify W → Verdict → Feed D → W → W
  announce notify abandons f w =
      let w' = notify bar_abandoned w in
      if f.degenerate_streak + 1 == degenerate_bar_alert_threshold
      then notify degenerate_bar_streak w'
      else w'
  announce notify waits f w = w
  announce notify evaluates f w = w

  unfoldable pub poll_bar : {W : Type 0} → Notify W → Feed D → Candle D → W → W × (Feed D × Verdict)
  poll_bar notify f c w =
      let v = verdict f.pending_bar c in (announce notify v f w, (feed_after v f c, v))

  -- The versions of one bar, poll by poll, up to the first verdict that settles it.
  abbrev poll_on : Verdict → Feed D → Candle D → (Feed D → Feed D × Verdict) → Feed D × Verdict
  poll_on waits f c next = next (feed_after waits f c)
  poll_on abandons f c next = (feed_after abandons f c, abandons)
  poll_on evaluates f c next = (feed_after evaluates f c, evaluates)

  unfoldable pub poll_until : Feed D → List (Candle D) → Feed D × Verdict
  poll_until f [] = (f, waits)
  poll_until f (c ∷ cs) = poll_on (verdict f.pending_bar c) f c (λ f'. poll_until f' cs)

  -- The next poll of the bar of an instant has this count.
  abbrev HasPolled : ℕ → ℕ → Option (PendingBar D) → Type 0
  HasPolled ts n pending = (c : Candle D) → c.timestamp ≡ ts → pending_polls pending c ≡ n

  HasPolled-start : (ts : ℕ) (pending : Option (PendingBar D)) → (n : ℕ) × HasPolled ts n pending
  HasPolled-start ts none = (0, λ c e. refl)
  HasPolled-start ts (some p) = (if p.timestamp == ts then p.polls + 1 else 0, λ c e. rw e refl)

  HasPolled-waits :
      (ts n : ℕ) (f : Feed D) (c : Candle D)
      → HasPolled ts n f.pending_bar
      → c.timestamp ≡ ts
      → HasPolled ts (n + 1) (feed_after waits f c).pending_bar
  HasPolled-waits ts n f c h e c' e' = ground (arith, h c e, e, e')

  verdict_late :
      (pending : Option (PendingBar D)) (c : Candle D)
      → max_bar_settle_polls < pending_polls pending c
      → verdict pending c ≢ waits
  unfolding verdict
  verdict_late pending c late h = ground arith

  poll_on_settles :
      (v : Verdict) (f : Feed D) (c : Candle D) (next : Feed D → Feed D × Verdict)
      → (v ≡ waits → (next (feed_after waits f c)).1 ≢ waits)
      → (poll_on v f c next).1 ≢ waits
  poll_on_settles waits f c next h e = h refl e
  poll_on_settles abandons f c next h e = cc
  poll_on_settles evaluates f c next h e = cc

  poll_until_late :
      (ts n : ℕ) (f : Feed D) (c : Candle D) (cs : List (Candle D))
      → HasPolled ts n f.pending_bar
      → c.timestamp ≡ ts
      → All (λ b. b.timestamp ≡ ts) cs
      → max_bar_settle_polls + 1 ≤ length cs + n
      → (poll_until f (c ∷ cs)).1 ≢ waits
  unfolding poll_until
  poll_until_late ts n f c [] polled e all enough =
      poll_on_settles (verdict f.pending_bar c) f c (λ f'. poll_until f' [])
        (λ h. absurd (verdict_late f.pending_bar c (omega (arith, polled c e)) h))
  poll_until_late ts n f c (c' ∷ cs) polled e (e', all) enough =
      poll_on_settles (verdict f.pending_bar c) f c (λ f'. poll_until f' (c' ∷ cs))
        (λ h.
          poll_until_late ts (n + 1) (feed_after waits f c) c' cs
            (HasPolled-waits ts n f c polled e) e' all (omega arith))

  -- A bar does not wait for ever: among the versions of one bar that 32 polls in a row see, whatever
  -- they hold and whatever was pending before, one is evaluated or abandoned.
  pub poll_until_settles :
      (ts : ℕ) (f : Feed D) (cs : List (Candle D))
      → All (λ c. c.timestamp ≡ ts) cs
      → max_bar_settle_polls + 2 ≤ length cs
      → (poll_until f cs).1 ≢ waits
  poll_until_settles ts f [] all enough h = omega arith
  poll_until_settles ts f (c ∷ cs) (e, all) enough h =
      let (n, polled) = HasPolled-start ts f.pending_bar in
      poll_until_late ts n f c cs polled e all (omega arith) h
