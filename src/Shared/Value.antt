-- ===== src/Shared/Value.antt =====
-- JavaScript values, as `unknown` data arrives: from a Yjs update or from `JSON.parse`.
use chat_crdt.Prelude.{
  ℕ, Bool, Option, none, some, List, [], ◌∷◌, Text, ◌==◌, if◌then◌else◌, text_Eq,
}

-- A number is an integer, `neg n` being -(n + 1), or else a fraction, an infinity or NaN, known by an index.
pub data Number : Type 0 where
  pos : ℕ → Number
  neg : ℕ → Number
  other : ℕ → Number

-- An object's fields are in the order of `Object.keys`, with distinct keys.
mutual
  pub data Value : Type 0 where
    undefined : Value
    null : Value
    bool : Bool → Value
    num : Number → Value
    str : Text → Value
    arr : Items → Value
    obj : Fields → Value

  pub data Items : Type 0 where
    nil : Items
    cons : Value → Items → Items

  pub data Fields : Type 0 where
    end : Fields
    field : Text → Value → Fields → Fields

-- `Object.keys`
abbrev pub keys : Fields → List Text
keys end = []
keys (field k v fs) = k ∷ keys fs

-- `o[k]`
unfoldable pub field_of : Text → Fields → Value
field_of k end = undefined
field_of k (field j v fs) = if j == k then v else field_of k fs

-- The fields of a value that is an object: not a primitive, not null and not an array.
abbrev pub as_object : Value → Option Fields
as_object (obj fs) = some fs
as_object _ = none

abbrev pub as_string : Value → Option Text
as_string (str s) = some s
as_string _ = none

-- `(value as { id?: unknown } | null)?.id`, of which the callers ask only whether it is a string. A
-- string, a number or an array has no own `id`.
abbrev pub id_field : Text → Value → Value
id_field k (obj fs) = field_of k fs
id_field k _ = undefined
