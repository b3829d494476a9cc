-- ===== src/Config/Read.antt =====
-- internal/config/config.go: the readers of single variables, and strconv.ParseBool.
use gnasty_chat.Prelude.{
  Bool, true, false, ◌||◌, Option, none, some, List, [], ◌∷◌, if◌then◌else◌, is_nil, ℤ, lez,
}
use gnasty_chat.Text.{Bytes, codes, beq, trim_space, to_lower}
use gnasty_chat.Text.Decimal.{parse_int}
use gnasty_chat.Dict.{Dict, get_or}

-- strings.TrimSpace(os.Getenv(name))
unfoldable pub env : Dict Bytes → Bytes → Bytes
env vars name = trim_space (get_or name vars [])

unfoldable pub env_or : Dict Bytes → Bytes → Bytes → Bytes
env_or vars name old = if is_nil (env vars name) then env vars old else env vars name

unfoldable pub one_of : Bytes → List Bytes → Bool
one_of s [] = false
one_of s (t ∷ ts) = beq s t || one_of s ts

-- The words of strconv.ParseBool.
abbrev true_words : List Bytes
true_words = codes "1" ∷ codes "t" ∷ codes "T" ∷ codes "true" ∷ codes "TRUE" ∷ codes "True" ∷ []

abbrev false_words : List Bytes
false_words = codes "0" ∷ codes "f" ∷ codes "F" ∷ codes "false" ∷ codes "FALSE" ∷ codes "False" ∷ []

unfoldable pub parse_bool : Bytes → Option Bool
parse_bool s =
    if one_of s true_words then some true else if one_of s false_words then some false else none

-- A positive number, or else the default.
unfoldable pub read_int : Dict Bytes → Bytes → ℤ → ℤ
read_int vars name def = elim (parse_int (env vars name)) [
  | none ↦ def
  | some n ↦ if lez n (ℤ.pos 0) then def else n
]

-- A number that is not negative, or else the default.
unfoldable pub read_natural : Bytes → ℤ → ℤ
read_natural raw def = elim (parse_int raw) [
  | none ↦ def
  | some n ↦ if lez (ℤ.pos 0) n then n else def
]

unfoldable pub read_bool_override : Dict Bytes → Bytes → Option Bool
read_bool_override vars name = parse_bool (env vars name)

-- `readBool` and `readBoolDefaultTrue`
unfoldable pub read_bool : Dict Bytes → Bytes → Bool → Bool
read_bool vars name def = elim (parse_bool (env vars name)) [ none ↦ def | some v ↦ v ]

unfoldable pub read_flag : Option Bool → Bool
read_flag none = false
read_flag (some v) = v

unfoldable pub read_debug : Dict Bytes → Bytes → Bool
read_debug vars name =
    one_of (to_lower (env vars name)) (codes "1" ∷ codes "true" ∷ codes "yes" ∷ [])
