-- ===== src/Base/Json.antt =====
-- A decoded JSON value, Go's `interface{}` after `json.Unmarshal`. A number is kept as its text.
use Prim.Native.String.{String}
use mathlib.Core.Bool.{Bool}

mutual
  pub data Json : Type 0 where
    null : Json
    boolean : Bool → Json
    number : String → Json
    text : String → Json
    array : Items → Json
    object : Fields → Json

  pub data Items : Type 0 where
    nil : Items
    item : Json → Items → Items

  -- A Go `map[string]interface{}`, as the list of its entries.
  pub data Fields : Type 0 where
    end : Fields
    field : String → Json → Fields → Fields
