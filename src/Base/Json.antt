-- ===== src/Base/Json.antt =====
-- JSON values as Python's `json` module decodes them, and the reads that the program makes of them.
-- An object is its fields in order; the keys of a Python mapping are distinct.
use Prim.Native.Nat.{ℕ}
use Prim.Native.String.{String}
use mathlib.Core.Bool.{Bool, true, false}
use mathlib.Core.Option.{Option, none, some}
use text.Mathlib.Text.{◌==◌}
use whatsapp_radar.Base.Tests.{eqb, if◌then◌else◌}

mutual
  -- A number is carried by its sign and its thousandths.
  pub data Value : Type 0 where
    null : Value
    bool : Bool → Value
    num : (negative : Bool) (thousandths : ℕ) → Value
    str : String → Value
    arr : Items → Value
    obj : Fields → Value

  -- The members of an object, in order.
  pub data Fields : Type 0 where
    end : Fields
    field : (key : String) (value : Value) (rest : Fields) → Fields

  -- The elements of an array.
  pub data Items : Type 0 where
    nil : Items
    cons : (first : Value) (rest : Items) → Items

-- `data.get(key)`, with `none` for a missing key.
unfoldable pub get : String → Fields → Option Value
get k end = none
get k (field j v fs) = let rest = get k fs in if j == k then some v else rest

-- `node.get(key)` where `node` may be no mapping at all.
unfoldable pub get_in : String → Option Value → Option Value
unfolding get
get_in k (some (obj fs)) = get k fs
get_in k (some other) = none
get_in k none = none

-- `bool(data.get(key))`: whether Python takes a value for true.
abbrev pub truthy : Option Value → Bool
truthy none = false
truthy (some null) = false
truthy (some (bool b)) = b
truthy (some (num s n)) = if eqb n 0 then false else true
truthy (some (str s)) = if s == "" then false else true
truthy (some (arr nil)) = false
truthy (some (arr (cons v vs))) = true
truthy (some (obj end)) = false
truthy (some (obj (field k v fs))) = true
