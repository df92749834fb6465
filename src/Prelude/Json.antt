-- ===== src/Prelude/Json.antt =====
-- JSON values with the truth values that Python gives them.
use Prim.Native.Nat.{ℕ, zero, suc}
use Prim.Native.String.{String}
use mathlib.Core.Bool.{Bool, true, false, not}
use mathlib.Core.Option.{Option, none, some}
use rmt_platform.Prelude.Tests.{if◌then◌else◌}
use rmt_platform.Prelude.Equality.{◌==◌, string_eq}

-- A value that JSON has no form for, or a float, is `other`, with its truth value.
mutual
  pub data Json : Type 0 where
    null : Json
    boolean : Bool → Json
    natural : ℕ → Json
    negative : ℕ → Json
    text : String → Json
    array : Items → Json
    object : Fields → Json
    other : Bool → String → Json

  pub data Items : Type 0 where
    no_items : Items
    item : Json → Items → Items

  pub data Fields : Type 0 where
    no_fields : Fields
    field : String → Json → Fields → Fields

-- `d.get(key)`
unfoldable pub get : String → Fields → Option Json
get k no_fields = none
get k (field j v fs) = if j == k then some v else get k fs

-- `bool(value)`; `negative n` is -(n + 1).
unfoldable pub truthy : Json → Bool
truthy null = false
truthy (boolean b) = b
truthy (natural zero) = false
truthy (natural (suc n)) = true
truthy (negative n) = true
truthy (text s) = not (s == "")
truthy (array no_items) = false
truthy (array (item x xs)) = true
truthy (object no_fields) = false
truthy (object (field k x fs)) = true
truthy (other b r) = b
