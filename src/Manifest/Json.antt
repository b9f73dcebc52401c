-- ===== src/Manifest/Json.antt =====
-- The JSON values of the program (`serde_json::Value`). Object members stand in the order of their
-- names, as the map type of that library keeps them. A number is an integer or, by its printed
-- text, one that is not.
use m_url.Base.{Bool}
use m_url.Base.Text.{Bytes}
use m_url.Base.Int.{ℤ}

mutual
  pub data Value : Type 0 where
    null : Value
    bool : Bool → Value
    integer : ℤ → Value
    fraction : Bytes → Value
    string : Bytes → Value
    array : Items → Value
    object : Members → Value

  pub data Items : Type 0 where
    nil : Items
    cons : Value → Items → Items

  pub data Members : Type 0 where
    end : Members
    member : Bytes → Value → Members → Members
