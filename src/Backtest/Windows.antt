-- ===== src/Backtest/Windows.antt =====
-- `split_windows` of crates/trader-backtest/src/walkforward.rs: anchored windows.
use daytradebot.Base.{
  ℕ, zero, suc, ◌+◌, ◌*◌, ◌/◌, ◌≤◌, ◌≡◌, refl, sym, ◌||◌, Option, none, some, List, [], ◌∷◌, arith,
  ltb, ◌==◌, if◌then◌else◌, length,
}

pub record Window : Type 0 where
  pub train_start : ℕ
  pub train_end : ℕ
  pub test_start : ℕ
  pub test_end : ℕ

-- The windows `i`, `i + 1`, … of which `left` are to come; each trains from the start of the series.
unfoldable pub windows_from : ℕ → ℕ → ℕ → List Window
windows_from block zero i = []
windows_from block (suc left) i =
    record {
      train_start = 0;
      train_end = (i + 1) * block;
      test_start = (i + 1) * block;
      test_end = (i + 2) * block;
    }
    ∷ windows_from block left (i + 1)

unfoldable pub split_windows : ℕ → ℕ → Option (List Window)
unfolding windows_from
split_windows len windows =
    if windows == 0 || ltb len ((windows + 1) * 2)
    then none
    else (let block = len / (windows + 1) in
        if block == 0 then none else some (windows_from block windows 0))

-- The windows from `start` on: each trains from the first candle up to where it tests, tests a block that is not empty and
-- ends within the series, and the next one tests from there.
abbrev pub IsChain : ℕ → ℕ → List Window → Type 0
IsChain start len [] = Unit
IsChain start len (w ∷ ws) =
    (w.train_start ≡ 0)
    × (w.test_start ≡ start)
    × (w.train_end ≡ w.test_start)
    × (w.test_start + 2 ≤ w.test_end)
    × (w.test_end ≤ len)
    × IsChain w.test_end len ws

next_start : (block i : ℕ) → (i + 2) * block ≡ (i + 1 + 1) * block
next_start block i = omega arith

shift : (i left : ℕ) → i + suc left + 1 ≡ i + 1 + left + 1
shift i left = omega arith

windows_from-IsChain :
    (block left i len : ℕ)
    → 2 ≤ block
    → (i + left + 1) * block ≤ len
    → IsChain ((i + 1) * block) len (windows_from block left i)
unfolding windows_from
windows_from-IsChain block zero i len h k = tt
windows_from-IsChain block (suc left) i len h k = (
  refl,
  refl,
  refl,
  omega arith,
  grind arith,
  rw (next_start block i) (windows_from-IsChain block left (i + 1) len h (rw (shift i left) at k)),
)

length-windows_from : (block left i : ℕ) → length (windows_from block left i) ≡ left
unfolding windows_from
length-windows_from block zero i = refl
length-windows_from block (suc left) i = omega (arith, length-windows_from block left (i + 1))

one_times : (block : ℕ) → (0 + 1) * block ≡ block
one_times block = omega arith

enough : (len windows : ℕ) → (windows + 1) * 2 ≤ len → 2 ≤ len / (windows + 1)
enough len windows h = grind arith

fits : (len windows : ℕ) → (0 + windows + 1) * (len / (windows + 1)) ≤ len
fits len windows = grind arith

split_windows-some :
    (len windows : ℕ) {ws : List Window}
    → split_windows len windows ≡ some ws
    → ((windows + 1) * 2 ≤ len) × (windows_from (len / (windows + 1)) windows 0 ≡ ws)
unfolding split_windows
split_windows-some len windows h = (ground arith, ground arith)

-- When the series can be split, there are as many windows as asked for; the first trains on the
-- first of `windows + 1` equal blocks; each trains from the first candle up to where it tests, tests a block of two candles
-- or more that ends within the series, and the next one tests from there.
pub split_windows-IsChain :
    (len windows : ℕ) {ws : List Window}
    → split_windows len windows ≡ some ws
    → (length ws ≡ windows) × IsChain (len / (windows + 1)) len ws
split_windows-IsChain len windows h =
    let (room, same) = split_windows-some len windows h in
    let block = len / (windows + 1) in
    rw (sym same) (
      length-windows_from block windows 0,
      rw (one_times block) at
          (windows_from-IsChain block windows 0 len (enough len windows room) (fits len windows)),
    )
