-- ===== src/Sink/Legacy.antt =====
-- internal/sink/sqlite.go: the times and the rows of a table from before the times were integers. The
-- package time's reading of RFC 3339 is a parameter.
use gnasty_chat.Prelude.{
  ◌/◌, Bool, false, ◌||◌, ◌&&◌, not, Option, none, some, List, [], ◌∷◌, if◌then◌else◌, is_nil, ℤ,
  pos, scale, wrap64, lez, pos_part, ◌==◌,
}
use gnasty_chat.Text.{Bytes, codes, trim_space, equal_fold}
use gnasty_chat.Text.Decimal.{parse_int}
use gnasty_chat.Sink.Store.{Row, id_arg}

-- strings.ContainsAny at "-:T"
unfoldable pub looks_like_time : Bytes → Bool
looks_like_time [] = false
looks_like_time (c ∷ s) = c == b'-' || (c == b':' || (c == b'T' || looks_like_time s))

-- Nanoseconds, microseconds, milliseconds or seconds, by their size; the last product is an int64.
unfoldable pub to_millis : ℤ → ℤ
to_millis n =
    if lez (pos 1_000_000_000_000_000_000) n
    then pos (pos_part n / 1_000_000)
    else if lez (pos 1_000_000_000_000_000) n
    then pos (pos_part n / 1000)
    else if lez (pos 1_000_000_000_000) n
    then n
    else wrap64 (scale n 1000)

unfoldable pub numeric_millis : Bytes → Option ℤ
numeric_millis raw = elim (parse_int raw) [ none ↦ none | some n ↦ some (to_millis n) ]

-- The milliseconds of a time under the first layout that fits.
unfoldable pub parsed_millis : List (Bytes → Option ℤ) → Bytes → Option ℤ
parsed_millis [] raw = numeric_millis raw
parsed_millis (layout ∷ layouts) raw = elim (layout raw) [
  | none ↦ parsed_millis layouts raw
  | some t ↦ some t
]

-- None for the error.
unfoldable pub legacy_timestamp_to_millis : List (Bytes → Option ℤ) → Bytes → Option ℤ
legacy_timestamp_to_millis layouts text =
    let raw = trim_space text in
    if is_nil raw
    then some (pos 0)
    else if looks_like_time raw
    then parsed_millis layouts raw
    else numeric_millis raw

-- A legacy row: the texts that may be NULL are empty then.
pub record LegacyRow : Type 0 where
  pub id : Bytes
  pub platform : Bytes
  pub platform_msg_id : Bytes
  pub ts : Bytes
  pub username : Bytes
  pub text : Bytes
  pub emotes_json : Bytes
  pub raw_json : Bytes
  pub badges_json : Bytes
  pub colour : Bytes

unfoldable pub migrated_id : Bytes → Bytes → Option Bytes
migrated_id pmid id = id_arg (if is_nil (trim_space pmid) then trim_space id else trim_space pmid)

unfoldable pub migrate_row : List (Bytes → Option ℤ) → LegacyRow → Option Row
migrate_row layouts r = elim (legacy_timestamp_to_millis layouts r.ts) [
  | none ↦ none
  | some ts ↦ some (record {
    platform = trim_space r.platform;
    platform_msg_id = migrated_id r.platform_msg_id r.id;
    ts = ts;
    username = trim_space r.username;
    text = r.text;
    emotes_json = r.emotes_json;
    raw_json = r.raw_json;
    badges_json = r.badges_json;
    colour = r.colour;
  })
]

unfoldable pub add_row : Option Row → Option (List Row) → Option (List Row)
add_row (some row) (some rows) = some (row ∷ rows)
add_row _ _ = none

-- The rows that are inserted into the new table; none if a time is not understood.
unfoldable pub migrate_rows : List (Bytes → Option ℤ) → List LegacyRow → Option (List Row)
migrate_rows layouts [] = some []
migrate_rows layouts (r ∷ rs) = add_row (migrate_row layouts r) (migrate_rows layouts rs)

-- Whether the columns `id` and `ts` ask for it, by their declared types.
unfoldable pub needs_migration : Option Bytes → Option Bytes → Bool
needs_migration (some id) (some ts) =
    not (equal_fold id (codes "INTEGER") && equal_fold ts (codes "INTEGER"))
needs_migration _ _ = false
