-- ===== src/Decimal/Order.antt =====
-- The order of decimals: consequences of totality that the components share.
use daytradebot.Base.{inl, inr, arith, Bool-cases}
use daytradebot.Decimal.Defs.{Decimal, ◌≼◌, ◌≺◌, IsOrdered, max, min}

module _ {D : Type 0} ⦃d : Decimal D⦄ (laws : IsOrdered D) where
  open laws use {le_total, le_trans}

  pub le_refl : (a : D) → a ≼ a
  le_refl a = elim (le_total a a) [ inl h ↦ h | inr h ↦ h ]

  pub le_of_lt : (a b : D) → a ≺ b → a ≼ b
  le_of_lt a b h = elim (le_total a b) [ inl p ↦ p | inr p ↦ cc ]

  pub lt_of_le_of_lt : (a b c : D) → a ≼ b → b ≺ c → a ≺ c
  lt_of_le_of_lt a b c p q = elim (Bool-cases (d.le c a)) [
    | inl r ↦ cc (le_trans c a b r p)
    | inr r ↦ r
  ]

  pub lt_of_lt_of_le : (a b c : D) → a ≺ b → b ≼ c → a ≺ c
  lt_of_lt_of_le a b c p q = elim (Bool-cases (d.le c a)) [
    | inl r ↦ cc (le_trans b c a q r)
    | inr r ↦ r
  ]

  pub le-max_left : (a b : D) → a ≼ max a b
  le-max_left a b = ground (arith, le_refl a)

  pub le-max_right : (a b : D) → b ≼ max a b
  le-max_right a b = ground (arith, le_refl b, le_total a b)

  pub min-le_left : (a b : D) → min a b ≼ a
  min-le_left a b = ground (arith, le_refl a, le_total a b)

  pub min-le_right : (a b : D) → min a b ≼ b
  min-le_right a b = ground (arith, le_refl b)
