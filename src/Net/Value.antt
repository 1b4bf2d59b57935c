-- ===== src/Net/Value.antt =====
-- `serde_json::Value`, and the `json!` objects of the program.
use acmex.Base.{ℕ, String, Bool, Option, none, some, List, [], ◌∷◌}

mutual
  pub data Json : Type 0 where
    null : Json
    bool : Bool → Json
    num : ℕ → Json
    str : String → Json
    arr : Items → Json
    obj : Fields → Json

  pub data Items : Type 0 where
    nil : Items
    cons : Json → Items → Items

  pub data Fields : Type 0 where
    end : Fields
    field : String → Json → Fields → Fields

-- A vector of texts.
abbrev pub strs : List String → Items
strs [] = nil
strs (s ∷ ss) = cons (str s) (strs ss)

-- `skip_serializing_if = "Option::is_none"`
abbrev pub optional : String → Option String → Fields → Fields
optional k none fs = fs
optional k (some s) fs = field k (str s) fs

abbrev pub is_null : Json → Bool
is_null null = Bool.true
is_null _ = Bool.false
