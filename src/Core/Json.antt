-- ===== src/Core/Json.antt =====
-- `serde_json::Value`, as far as the source builds it with `json!` or keeps it. A number is held
-- by its text. The parser and the printer of the crate are parameters.
use acme_wasm.Prelude.{Bool, List, [], ◌∷◌, Text}

mutual
  pub data Value : Type 0 where
    null : Value
    bool : Bool → Value
    number : Text → Value
    string : Text → Value
    array : Values → Value
    object : Members → Value

  pub data Values : Type 0 where
    nil : Values
    cons : Value → Values → Values

  pub data Members : Type 0 where
    end : Members
    member : Text → Value → Members → Members

-- a list of strings under `json!`
unfoldable pub strings : List Text → Values
strings [] = nil
strings (s ∷ r) = cons (string s) (strings r)
