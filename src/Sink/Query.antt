-- ===== src/Sink/Query.antt =====
-- internal/sink/sqlite.go: buildMessageQuery. Times are nanoseconds, and UnixMilli rounds down.
pub mod Marks
use gnasty_chat.Prelude.{
  ℕ, suc, ◌+◌, ◌/◌, Bool, true, false, Option, none, some, List, [], ◌∷◌, ◌++◌, ◌≡◌, refl, arith,
  if◌then◌else◌, length, length-append, ℤ, lez, ◌==◌,
}
use gnasty_chat.Text.{Bytes, codes, join}
use gnasty_chat.Message.{Time, zero_time, unix_nano}
use gnasty_chat.Http.Filters.{Filters, Order, desc, asc}

pub data Arg : Type 0 where
  text : Bytes → Arg
  number : ℤ → Arg

unfoldable pub unix_milli : Time → ℤ
unix_milli zero_time = ℤ.negsuc 62_135_596_799_999
unix_milli (unix_nano (ℤ.pos n)) = ℤ.pos (n / 1_000_000)
unix_milli (unix_nano (ℤ.negsuc n)) = ℤ.negsuc (n / 1_000_000)

pub repeat : Bytes → List Bytes → List Bytes
repeat s [] = []
repeat s (p ∷ ps) = s ∷ repeat s ps

pub texts : List Bytes → List Arg
texts [] = []
texts (p ∷ ps) = text p ∷ texts ps

-- Conditions and arguments, each of the three blocks.
unfoldable pub platform_condition : List Bytes → List Bytes × List Arg
unfolding repeat texts
platform_condition [] = ([], [])
platform_condition (p ∷ ps) = (
  (codes "platform IN (" ++ (join (codes ",") (repeat (codes "?") (p ∷ ps)) ++ codes ")")) ∷ [],
  texts (p ∷ ps),
)

unfoldable pub username_condition : List Bytes → List Bytes × List Arg
unfolding repeat texts
username_condition [] = ([], [])
username_condition (u ∷ us) = (
  (codes "("
        ++ (join (codes " OR ") (repeat (codes "LOWER(username) LIKE '%' || ? || '%'") (u ∷ us))
            ++ codes ")"))
      ∷ [],
  texts (u ∷ us),
)

unfoldable pub since_condition : Option Time → List Bytes × List Arg
since_condition none = ([], [])
since_condition (some t) = (codes "ts >= ?" ∷ [], number (unix_milli t) ∷ [])

unfoldable pub where_clause : List Bytes → Bytes
where_clause [] = []
where_clause (c ∷ cs) = codes " WHERE " ++ join (codes " AND ") (c ∷ cs)

unfoldable pub order_name : Order → Bytes
order_name desc = codes "DESC"
order_name asc = codes "ASC"

abbrev pub default_list_limit : ℤ
default_list_limit = ℤ.pos 100

unfoldable pub list_limit : ℤ → ℤ
list_limit n = if lez n (ℤ.pos 0) then default_list_limit else n

abbrev pub columns : Bytes
columns =
    codes
      "SELECT id, platform_msg_id, ts, username, platform, text, emotes_json, raw_json, badges_json, colour FROM messages"

unfoldable pub build_message_query : Filters → Bool → Bytes × List Arg
build_message_query f count =
    let (ps, pargs) = platform_condition f.platforms in
    let (us, uargs) = username_condition f.usernames in
    let (ss, sargs) = since_condition f.since in
    let clause = where_clause (ps ++ (us ++ ss)) in
    let args = pargs ++ (uargs ++ sargs) in
    if count then (codes "SELECT COUNT(*) FROM messages" ++ (clause ++ codes ";"), args) else (
      columns ++ (clause ++ (codes " ORDER BY ts " ++ (order_name f.order ++ codes " LIMIT ?;"))),
      args ++ number (list_limit f.limit) ∷ [],
    )
