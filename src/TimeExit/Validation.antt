-- ===== src/TimeExit/Validation.antt =====
-- What the tracker decides over a whole position.
use daytradebot.Base.{
  ◌+◌, ◌≡◌, refl, Bool, true, false, not, ◌&&◌, ◌||◌, List, [], ◌∷◌, ◌++◌, arith, leb, length,
  Bool-cases, inl, inr,
}
use daytradebot.Decimal.{Decimal, is_zero}
use daytradebot.Domain.Signals.{Direction}
use daytradebot.TimeExit.{
  TimeExitConfig, TimeExitTracker, new_tracker, ensure_tracking, reaches, on_candle_close,
}

module _ {D : Type 0} ⦃d : Decimal D⦄ where
  -- The tracker after the closes of a list, whatever it answered.
  unfoldable pub run : TimeExitTracker D → List D → TimeExitTracker D
  run t [] = t
  run t (c ∷ cs) = run (on_candle_close t c).0 cs

  pub any_reaches : TimeExitTracker D → List D → Bool
  any_reaches t [] = false
  any_reaches t (c ∷ cs) = reaches t c || any_reaches t cs

  -- A tracked position has a risk by which its profit can be measured.
  abbrev pub IsArmed : TimeExitTracker D → Type 0
  IsArmed t = t.tracking ≡ true → is_zero t.risk_per_unit ≡ false

  -- It holds of a new tracker, and `ensure_tracking` and `on_candle_close` keep it.
  pub new_tracker-IsArmed : (c : TimeExitConfig D) → IsArmed (new_tracker c)
  unfolding new_tracker
  new_tracker-IsArmed c h = ground arith

  pub ensure_tracking-IsArmed :
      (t : TimeExitTracker D) (entry stop : D) (dir : Direction)
      → IsArmed t
      → IsArmed (ensure_tracking t entry stop dir)
  unfolding ensure_tracking
  ensure_tracking-IsArmed t entry stop dir h k = ground arith

  pub on_candle_close-IsArmed :
      (t : TimeExitTracker D) (c : D) → IsArmed t → IsArmed (on_candle_close t c).0
  unfolding on_candle_close
  on_candle_close-IsArmed t c h k = ground arith

  reaches-step : (t : TimeExitTracker D) (x c : D) → reaches (on_candle_close t x).0 c ≡ reaches t c
  unfolding on_candle_close
  reaches-step t x c = ground arith

  any_reaches-step :
      (t : TimeExitTracker D) (x : D) (cs : List D)
      → any_reaches (on_candle_close t x).0 cs ≡ any_reaches t cs
  unfolding any_reaches
  any_reaches-step t x [] = refl
  any_reaches-step t x (c ∷ cs) = rw (reaches-step t x c, any_reaches-step t x cs)

  -- One close while the position is watched.
  step_watched :
      (t : TimeExitTracker D) (x : D)
      → t.config.enabled && t.tracking ≡ true
      → let t' = (on_candle_close t x).0 in
        (t'.config ≡ t.config)
        × (t'.tracking ≡ t.tracking)
        × (t'.validated ≡ t.validated || reaches t x)
        × (t'.candles_since_fill ≡ t.candles_since_fill + 1)
  unfolding on_candle_close
  step_watched t x h = (ground arith, ground arith, ground arith, ground arith)

  step_unwatched :
      (t : TimeExitTracker D) (x : D)
      → t.config.enabled && t.tracking ≡ false
      → on_candle_close t x ≡ (t, false)
  unfolding on_candle_close
  step_unwatched t x h = ground arith

  run_unwatched :
      (t : TimeExitTracker D) (cs : List D) → t.config.enabled && t.tracking ≡ false → run t cs ≡ t
  unfolding run
  run_unwatched t [] h = refl
  run_unwatched t (x ∷ cs) h = rw (step_unwatched t x h) (run_unwatched t cs h)

  exit_watched :
      (t : TimeExitTracker D) (cs : List D) (c : D)
      → t.config.enabled && t.tracking ≡ true
      → (on_candle_close (run t cs) c).1 ≡ (
          not (t.validated || any_reaches t (cs ++ (c ∷ [])))
          && leb t.config.candles (t.candles_since_fill + length cs + 1))
  unfolding run any_reaches
  exit_watched t [] c h = unfold on_candle_close in ground arith
  exit_watched t (x ∷ cs) c h =
      let t' = (on_candle_close t x).0 in
      let (e1, e2, e3, e4) = step_watched t x h in
      ground (
        arith,
        exit_watched t' cs c (rw (e1, e2) h),
        any_reaches-step t x (cs ++ (c ∷ [])),
        e1,
        e3,
        e4,
      )

  -- After the closes `cs` and one more, `c`, the tracker asks for the exit exactly when it is enabled
  -- and tracking, was not validated before, has counted at least `candles` closes, and none of the
  -- closes reached `min_r`.
  pub on_candle_close-run :
      (t : TimeExitTracker D) (cs : List D) (c : D)
      → (on_candle_close (run t cs) c).1
        ≡ (t.config.enabled && t.tracking)
          && (not (t.validated || any_reaches t (cs ++ (c ∷ [])))
              && leb t.config.candles (t.candles_since_fill + length cs + 1))
  on_candle_close-run t cs c = elim (Bool-cases (t.config.enabled && t.tracking)) [
    | inl on ↦ rw (on, exit_watched t cs c on)
    | inr off ↦ rw (off, run_unwatched t cs off, step_unwatched t c off)
  ]
