-- ===== src/Broker/Fits.antt =====
-- One position or one waiting entry for a symbol, and no exits without a position: the rule on the
-- maps of the simulated broker, and what a write to one of them leaves of it.
use daytradebot.Base.{
  ◌≡◌, String, Option, none, some, arith, lookup, insert, erase, lookup-insert, lookup-erase,
  string_key,
}
use daytradebot.Decimal.{Decimal}
use daytradebot.Domain.Trades.{Position}
use daytradebot.Broker.State.{order_id_key, PendingExit, PendingEntry, SimulatedState}
use text.Mathlib.TextEquality.{eq_iff}

module _ {D : Type 0} ⦃d : Decimal D⦄ where
  -- What a symbol has: nothing but perhaps a waiting entry, or a position and no waiting entry.
  abbrev pub Fits : Option (Position D) → Option (PendingEntry D) → Option (PendingExit D) → Type 0
  Fits none entry exit = exit ≡ none
  Fits (some p) entry exit = entry ≡ none

  -- For no symbol are a position and a waiting entry held together, and exits are pending only where
  -- there is a position.
  abbrev pub IsExclusive : SimulatedState D → Type 0
  IsExclusive st =
      (s : String)
      → Fits (lookup s st.positions) (lookup s st.pending_entries) (lookup s st.pending_exits)

  -- The three maps after a write at `k`, read at any symbol `s`.
  module _ (k : String) (st : SimulatedState D) (h : IsExclusive st) where
    pub Fits-marked :
        (p p' : Position D)
        → lookup k st.positions ≡ some p
        → (s : String)
        → Fits
            (lookup s (insert k p' st.positions))
            (lookup s st.pending_entries)
            (lookup s st.pending_exits)
    Fits-marked p p' e s = ground (arith, h s, lookup-insert k s p' st.positions, eq_iff k s)

    pub Fits-entered :
        (p : Position D) (x : PendingExit D) (s : String)
        → Fits
            (lookup s (insert k p st.positions))
            (lookup s (erase k st.pending_entries))
            (lookup s (insert k x st.pending_exits))
    Fits-entered p x s = ground (
      arith,
      h s,
      lookup-insert k s p st.positions,
      lookup-erase k s st.pending_entries,
      lookup-insert k s x st.pending_exits,
    )

    pub Fits-left :
        (s : String)
        → Fits
            (lookup s st.positions)
            (lookup s (erase k st.pending_entries))
            (lookup s st.pending_exits)
    Fits-left s = ground (arith, h s, lookup-erase k s st.pending_entries)

    pub Fits-waiting :
        (e : PendingEntry D)
        → lookup k st.positions ≡ none
        → (s : String)
        → Fits
            (lookup s st.positions)
            (lookup s (insert k e st.pending_entries))
            (lookup s st.pending_exits)
    Fits-waiting e n s = ground (arith, h s, lookup-insert k s e st.pending_entries, eq_iff k s)

    pub Fits-opened :
        (p : Position D)
        → lookup k st.pending_entries ≡ none
        → (s : String)
        → Fits
            (lookup s (insert k p st.positions))
            (lookup s st.pending_entries)
            (lookup s st.pending_exits)
    Fits-opened p n s = ground (arith, h s, lookup-insert k s p st.positions, eq_iff k s)

    pub Fits-bracketed :
        (p : Position D) (x : PendingExit D)
        → lookup k st.pending_entries ≡ none
        → (s : String)
        → Fits
            (lookup s (insert k p st.positions))
            (lookup s st.pending_entries)
            (lookup s (insert k x st.pending_exits))
    Fits-bracketed p x n s = ground (
      arith,
      h s,
      lookup-insert k s p st.positions,
      lookup-insert k s x st.pending_exits,
      eq_iff k s,
    )

    -- A symbol with a waiting entry has no position.
    pub no_position :
        (e : PendingEntry D) → lookup k st.pending_entries ≡ some e → lookup k st.positions ≡ none
    no_position e w = ground (arith, h k)
