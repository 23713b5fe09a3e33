-- ===== src/Json.antt =====
-- The values of Python's `json`: a dict has its items in order, each key once.
use revenue_ai.Base.{ℤ, String, str_eq, Bool, Option, none, some, if◌then◌else◌, or_else}

mutual
  pub data Json : Type 0 where
    null : Json
    boolean : Bool → Json
    number : ℤ → Json
    str : String → Json
    array : Items → Json
    object : Fields → Json

  pub data Items : Type 0 where
    nil : Items
    cons : Json → Items → Items

  pub data Fields : Type 0 where
    end : Fields
    field : String → Json → Fields → Fields

-- `fields.get(k)`
abbrev pub get : String → Fields → Option Json
get k end = none
get k (field j v fields) = if str_eq j k then some v else get k fields

-- `value.get(key, default)`, which raises where the value is no dict
abbrev pub dict_get : String → Json → Json → Option Json
dict_get key default (object fields) = some (or_else (get key fields) default)
dict_get key default _ = none
