-- ===== src/Json.antt =====
-- The calls of jsoncpp, a library of its own, as parameters. `Value` is `Json::Value`.
use devscan.Base.{ℕ, Bool, Option}
use devscan.Base.Text.{Text}
use devscan.Result.{Result}

pub record JsonLibrary : Type 1 where
  pub Value : Type 0
  -- `Json::Reader().parse(text, root)`: the root, if the call returns true
  pub parse : Text → Result (Option Value)
  -- `root[key]` on a document that may be written to: the document behind the call, and the member
  pub index : Value → Text → Result (Value × Value)
  -- `node[key]` on a constant node
  pub member : Value → Text → Result Value
  pub is_member : Value → Text → Result Bool
  pub as_string : Value → Result Text
  pub as_uint : Value → Result ℕ
