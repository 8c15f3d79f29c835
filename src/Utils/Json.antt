-- ===== src/Utils/Json.antt =====
-- `map[string]interface{}` and the values that encoding/json puts in it. A map is an association
-- list; its order stands for the order in which Go happens to range over it.
use flotilla_os.Common.{String, Bool}

mutual
  pub data Json : Type 0 where
    null : Json
    bool : Bool → Json
    -- A number, by its literal.
    number : String → Json
    text : String → Json
    array : Items → Json
    object : Fields → Json
    -- A Go map of another type than `map[string]interface{}`, such as `map[string]string`.
    typed_map : Fields → Json

  pub data Items : Type 0 where
    nil : Items
    cons : Json → Items → Items

  pub data Fields : Type 0 where
    end : Fields
    field : String → Json → Fields → Fields
