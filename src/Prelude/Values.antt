-- ===== src/Prelude/Values.antt =====
-- Values as Python's `json` reads them, beside objects of other classes, which come as the text that
-- `str` gives of them. A number is the text of its digits.
use mathlib.Core.Bool.{Bool}
use Prim.Native.String.{String}

mutual
  pub data Value : Type 0 where
    null : Value
    truth : Bool → Value
    number : String → Value
    text : String → Value
    object : String → Value
    array : Values → Value
    dict : Entries → Value

  pub data Values : Type 0 where
    no_values : Values
    value_before : Value → Values → Values

  -- The entries of a dictionary in their order, with distinct keys.
  pub data Entries : Type 0 where
    no_entries : Entries
    entry : String → Value → Entries → Entries
