-- ===== src/Protocol/Json.antt =====
-- crates/idr-protocol/src/human_centered/common.rs: `validate_json_payload`.
pub mod Limits
use idr.Base.{
  ℕ, zero, suc, ◌+◌, ◌||◌, ltb, List, [], ◌∷◌, length, Option, none, some, ok, err, deny, ◌>>◌,
  ◌>>=◌, ok_or, Text, if◌then◌else◌, Bool, true, false,
}
use idr.Protocol.Error.{Checked, payload_limit_exceeded, serialization}

-- `serde_json::Value`; a number is kept as its text, and an object's fields stand in map order.
mutual
  pub data Value : Type 0 where
    null : Value
    bool : Bool → Value
    number : Text → Value
    string : Text → Value
    array : Items → Value
    object : Fields → Value

  pub data Items : Type 0 where
    nil : Items
    cons : Value → Items → Items

  pub data Fields : Type 0 where
    end : Fields
    field : Text → Value → Fields → Fields

abbrev pub max_bytes : ℕ
max_bytes = 1048576

abbrev pub max_depth : ℕ
max_depth = 32

abbrev pub max_nodes : ℕ
max_nodes = 10000

abbrev pub Stack : Type 0
Stack = List (Value × ℕ)

-- `stack.extend(children)`: the last child is on top.
abbrev pub push_items : Items → ℕ → Stack → Stack
push_items nil depth stack = stack
push_items (cons v vs) depth stack = push_items vs depth ((v, depth) ∷ stack)

abbrev pub push_fields : Fields → ℕ → Stack → Stack
push_fields end depth stack = stack
push_fields (field k v fs) depth stack = push_fields fs depth ((v, depth) ∷ stack)

abbrev pub push_children : Value → ℕ → Stack → Stack
push_children (array vs) depth stack = push_items vs (depth + 1) stack
push_children (object fs) depth stack = push_fields fs (depth + 1) stack
push_children null depth stack = stack
push_children (bool _) depth stack = stack
push_children (number _) depth stack = stack
push_children (string _) depth stack = stack

-- The `while` loop; `none` means that the fuel ran out.
unfoldable pub walk : ℕ → Stack → ℕ → Option (Checked (Unit {0}))
walk zero stack nodes = none
walk (suc fuel) [] nodes = some (ok tt)
walk (suc fuel) ((v, depth) ∷ stack) nodes =
    let rest = walk fuel (push_children v depth stack) (nodes + 1) in
    if ltb max_depth depth || ltb max_nodes (nodes + 1)
    then some (err payload_limit_exceeded)
    else rest

-- The loop counts its rounds and stops past `max_nodes`, so this fuel is enough.
abbrev pub enough : ℕ
enough = 10001

-- The fault of the fuel is never returned (`validate_json_payload-ok_iff`).
abbrev pub finished : Option (Checked (Unit {0})) → Checked (Unit {0})
finished none = err payload_limit_exceeded
finished (some r) = r

-- `serde_json::to_vec(value)` is a parameter; only the length of its result is used.
unfoldable pub validate_json_payload : (Value → Option (List ℕ)) → Value → Checked (Unit {0})
validate_json_payload to_vec value = do
  bytes ← ok_or (to_vec value) serialization
  deny (ltb max_bytes (length bytes)) payload_limit_exceeded
  finished (walk enough ((value, 1) ∷ []) 0)
