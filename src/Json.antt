-- ===== src/Json.antt =====
-- JSON values as encoding/json decodes them into `any`, and json.Marshal. Numbers are integers here:
-- a number with a fraction is not modelled. Texts from byte 128 on are written as they are.
use gnasty_chat.Prelude.{
  ℕ, ◌+◌, ◌-◌, ◌/◌, ◌%◌, suc, Bool, true, false, ◌||◌, Option, none, some, List, [], ◌∷◌, ◌++◌, ltb,
  ◌==◌, if◌then◌else◌, ℤ, pos, negsuc,
}
use gnasty_chat.Text.{Bytes, codes, join, beq}
use gnasty_chat.Text.Decimal.{itoa}
use gnasty_chat.Text.Order.{lex_le}

mutual
  pub data Json : Type 0 where
    null : Json
    bool : Bool → Json
    num : ℤ → Json
    str : Bytes → Json
    arr : Items → Json
    obj : Fields → Json

  pub data Items : Type 0 where
    nil : Items
    cons : Json → Items → Items

  -- A map's entries, in the order in which `range` visits them.
  pub data Fields : Type 0 where
    end : Fields
    field : Bytes → Json → Fields → Fields

-- v, ok := m[key]
unfoldable pub get : Bytes → Fields → Option Json
get k end = none
get k (field j v m) = if beq j k then some v else get k m

-- m[key].(map[string]any), m[key].(string), m[key].([]any)
unfoldable pub as_obj : Option Json → Option Fields
as_obj (some (obj m)) = some m
as_obj _ = none

unfoldable pub as_str : Option Json → Option Bytes
as_str (some (str s)) = some s
as_str _ = none

unfoldable pub as_arr : Option Json → Option Items
as_arr (some (arr xs)) = some xs
as_arr _ = none

hex_digit : ℕ → ℕ
hex_digit n = if ltb n 10 then b'0' + n else b'a' + n - 10

-- How one byte of a text is written.
unfoldable pub escape_byte : ℕ → Bytes
unfolding hex_digit
escape_byte c =
    if c == 34 || c == 92
    then 92 ∷ c ∷ []
    else if c == 8
    then 92 ∷ b'b' ∷ []
    else if c == 9
    then 92 ∷ b't' ∷ []
    else if c == 10
    then 92 ∷ b'n' ∷ []
    else if c == 12
    then 92 ∷ b'f' ∷ []
    else if c == 13
    then 92 ∷ b'r' ∷ []
    else if ltb c 32 || (c == b'<' || (c == b'>' || c == b'&'))
    then 92 ∷ b'u' ∷ b'0' ∷ b'0' ∷ hex_digit (c / 16) ∷ hex_digit (c % 16) ∷ []
    else c ∷ []

unfoldable pub escape_text : Bytes → Bytes
unfolding escape_byte
escape_text [] = []
escape_text (c ∷ s) = escape_byte c ++ escape_text s

unfoldable pub marshal_text : Bytes → Bytes
unfolding escape_text
marshal_text s = 34 ∷ (escape_text s ++ 34 ∷ [])

unfoldable pub marshal_int : ℤ → Bytes
unfolding itoa
marshal_int (pos n) = itoa n
marshal_int (negsuc n) = b'-' ∷ itoa (suc n)

insert_entry : Bytes × Bytes → List (Bytes × Bytes) → List (Bytes × Bytes)
insert_entry (k, v) [] = (k, v) ∷ []
insert_entry (k, v) ((j, w) ∷ m) =
    if lex_le k j then (k, v) ∷ (j, w) ∷ m else (j, w) ∷ insert_entry (k, v) m

unfoldable pub write_entries : List (Bytes × Bytes) → List Bytes
unfolding marshal_text
write_entries [] = []
write_entries ((k, v) ∷ m) = (marshal_text k ++ b':' ∷ v) ∷ write_entries m

-- json.Marshal; the keys of a map are sorted.
unfoldable mutual
  unfolding marshal_text marshal_int insert_entry write_entries join lex_le

  pub marshal : Json → Bytes
  marshal null = codes "null"
  marshal (bool true) = codes "true"
  marshal (bool false) = codes "false"
  marshal (num n) = marshal_int n
  marshal (str s) = marshal_text s
  marshal (arr xs) = b'[' ∷ (join (b',' ∷ []) (marshal_items xs) ++ b']' ∷ [])
  marshal (obj m) = b'{' ∷ (join (b',' ∷ []) (write_entries (marshal_fields m)) ++ b'}' ∷ [])

  pub marshal_items : Items → List Bytes
  marshal_items nil = []
  marshal_items (cons x xs) = marshal x ∷ marshal_items xs

  pub marshal_fields : Fields → List (Bytes × Bytes)
  marshal_fields end = []
  marshal_fields (field k v m) = insert_entry (k, marshal v) (marshal_fields m)

-- A struct's fields stand in the order of the declaration.
unfoldable pub write_struct : List (Bytes × Bytes) → Bytes
unfolding write_entries
write_struct m = b'{' ∷ (join (b',' ∷ []) (write_entries m) ++ b'}' ∷ [])

unfoldable pub write_array : List Bytes → Bytes
write_array xs = b'[' ∷ (join (b',' ∷ []) xs ++ b']' ∷ [])
