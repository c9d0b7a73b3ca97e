-- ===== src/Decimal/Defs.antt =====
-- `rust_decimal::Decimal`, which the program takes from a crate: a parameter of the model. The
-- record holds the operations that the program calls; comparisons, `max` and `min` are defined from
-- the order as Rust's `Ord` defines them. `IsOrdered`, `IsRounded` and `IsExact` name
-- the laws that theorems use.
use daytradebot.Base.{ℕ, Option, Bool, true, false, not, ◌&&◌, ◌≡◌, ◌⊎◌, if◌then◌else◌}

pub record Decimal (D : Type 0) : Type 0 where
  -- `Decimal::ZERO` and `Decimal::ONE`
  pub nought : D
  pub unity : D
  pub add : D → D → D
  pub sub : D → D → D
  pub mul : D → D → D
  pub div : D → D → D
  pub neg : D → D
  pub abs : D → D
  -- `trunc()`, and `round_dp(2)`
  pub trunc : D → D
  pub round_cents : D → D
  -- `floor().to_usize()` and `ceil().to_usize()`, which fail on what no `usize` holds
  pub floor_usize : D → Option ℕ
  pub ceil_usize : D → Option ℕ
  -- `Decimal::from` of an unsigned integer
  pub of_ℕ : ℕ → D
  pub le : D → D → Bool

module _ {D : Type 0} ⦃d : Decimal D⦄ where
  infixl 65 ◌⊕◌ ◌⊖◌
  infixl 70 ◌⊗◌ ◌⊘◌
  infix 50 ◌≼◌ ◌≺◌
  abbrev pub ◌⊕◌ : D → D → D
  a ⊕ b = d.add a b

  abbrev pub ◌⊖◌ : D → D → D
  a ⊖ b = d.sub a b

  abbrev pub ◌⊗◌ : D → D → D
  a ⊗ b = d.mul a b

  abbrev pub ◌⊘◌ : D → D → D
  a ⊘ b = d.div a b

  abbrev pub le : D → D → Bool
  le a b = d.le a b

  abbrev pub lt : D → D → Bool
  lt a b = not (d.le b a)

  abbrev pub is_zero : D → Bool
  is_zero a = d.le a d.nought && d.le d.nought a

  -- `Ord::max` and `Ord::min`: the second argument of two equal ones, and the first.
  abbrev pub max : D → D → D
  max a b = if d.le a b then b else a

  abbrev pub min : D → D → D
  min a b = if d.le a b then a else b

  abbrev pub ◌≼◌ : D → D → Type 0
  a ≼ b = d.le a b ≡ true

  abbrev pub ◌≺◌ : D → D → Type 0
  a ≺ b = d.le b a ≡ false

-- The order of the crate's `Ord` is total.
pub record IsOrdered (D : Type 0) ⦃d : Decimal D⦄ : Type 0 where
  pub le_total : (a b : D) → (a ≼ b) ⊎ (b ≼ a)
  pub le_trans : (a b c : D) → a ≼ b → b ≼ c → a ≼ c

-- What rounding to the nearest representable value keeps, so these hold of every result of the
-- crate that does not overflow, rounded or not.
pub record IsRounded (D : Type 0) ⦃d : Decimal D⦄ : Type 0 where
  pub add_nonneg : (a b : D) → d.nought ≼ a → d.nought ≼ b → d.nought ≼ a ⊕ b
  pub add_pos : (a b : D) → d.nought ≺ a → d.nought ≼ b → d.nought ≺ a ⊕ b
  pub add_pos_right : (a b : D) → d.nought ≼ a → d.nought ≺ b → d.nought ≺ a ⊕ b
  pub le_add : (a b : D) → d.nought ≼ b → a ≼ a ⊕ b
  pub le_mul : (a b : D) → d.nought ≼ a → d.unity ≼ b → a ≼ a ⊗ b
  pub div_le : (a b : D) → d.nought ≼ a → d.unity ≼ b → a ⊘ b ≼ a
  pub sub_pos : (a b : D) → d.nought ≺ a ⊖ b → b ≺ a
  pub sub_le : (a b : D) → d.nought ≼ b → a ⊖ b ≼ a
  pub mul_nonneg : (a b : D) → d.nought ≼ a → d.nought ≼ b → d.nought ≼ a ⊗ b

-- The laws of a commutative ring that the crate's results obey where none of them is rounded.
pub record IsExact (D : Type 0) ⦃d : Decimal D⦄ : Type 0 where
  pub add_assoc : (a b c : D) → (a ⊕ b) ⊕ c ≡ a ⊕ (b ⊕ c)
  pub add_comm : (a b : D) → a ⊕ b ≡ b ⊕ a
  pub sub_eq : (a b : D) → a ⊖ b ≡ a ⊕ d.neg b
  pub neg_add : (a b : D) → d.neg (a ⊕ b) ≡ d.neg a ⊕ d.neg b
  pub neg_neg : (a : D) → d.neg (d.neg a) ≡ a
  pub sub_mul : (a b c : D) → (a ⊖ b) ⊗ c ≡ a ⊗ c ⊖ b ⊗ c
  pub mul_one : (a : D) → a ⊗ d.unity ≡ a
  pub mul_neg_one : (a : D) → a ⊗ d.neg d.unity ≡ d.neg a
