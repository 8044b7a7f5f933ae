-- ===== src/Prelude/Json.antt =====
-- Values that the program passes on without looking: `unknown`, and numbers that may be fractions.
use Prim.Native.String.{String}
use mathlib.Core.Bool.{Bool}

-- A number that is only passed on, by its literal.
abbrev pub Number : Type 0
Number = String

mutual
  pub data Unknown : Type 0 where
    undefined : Unknown
    nothing : Unknown
    bool : Bool → Unknown
    num : Number → Unknown
    str : String → Unknown
    arr : Items → Unknown
    obj : Entries → Unknown

  pub data Items : Type 0 where
    nil : Items
    cons : Unknown → Items → Items

  pub data Entries : Type 0 where
    end : Entries
    entry : String → Unknown → Entries → Entries
