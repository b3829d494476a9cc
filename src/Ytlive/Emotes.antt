-- ===== src/Ytlive/Emotes.antt =====
-- internal/ytlive/client.go: the text of a message and the emotes in it, whose places are counted in
-- UTF-16 units.
pub mod Places
use gnasty_chat.Prelude.{
  ℕ, ◌+◌, Bool, true, false, ◌&&◌, ◌||◌, Option, none, some, List, [], ◌∷◌, ◌++◌, ltb, leb,
  if◌then◌else◌, is_nil, ℤ, total, scale, wrap64, ltz, ◌*◌,
}
use gnasty_chat.Text.{Bytes, codes, has_prefix, trim_prefix, trim_space}
use gnasty_chat.Text.Decimal.{parse_int}
use gnasty_chat.Json.{
  Json, num, str, arr, obj, Items, nil, cons, Fields, end, field, get, as_obj, as_str, as_arr,
}

pub record EmoteImage : Type 0 where
  pub url : Bytes
  pub width : ℤ
  pub height : ℤ

pub record Location : Type 0 where
  pub start : ℕ
  pub stop : ℕ

pub record Emote : Type 0 where
  pub id : Bytes
  pub name : Bytes
  pub locations : List Location
  pub images : List EmoteImage

unfoldable pub string_field : Fields → Bytes → Bytes
string_field m key = elim (as_str (get key m)) [ none ↦ [] | some s ↦ s ]

unfoldable pub int_field : Fields → Bytes → ℤ
int_field m key = elim (get key m) [ none ↦ ℤ.pos 0 | some v ↦ number v ]
  where
    number : Json → ℤ
    number (num n) = n
    number (str s) = elim (parse_int (trim_space s)) [ none ↦ ℤ.pos 0 | some n ↦ n ]
    number _ = ℤ.pos 0

-- `digMap` with two keys.
unfoldable pub dig_two : Fields → Bytes → Bytes → Option Fields
dig_two m a b = elim (as_obj (get a m)) [ none ↦ none | some n ↦ as_obj (get b n) ]

-- The first text of the shortcuts, or the emoji's id between colons.
unfoldable pub first_text : Items → Option Bytes
first_text nil = none
first_text (cons j js) = as_str (some j)

unfoldable pub first_shortcut : Fields → Bytes
first_shortcut emoji = elim (as_arr (get (codes "shortcuts") emoji)) [
  | none ↦ []
  | some js ↦ elim (first_text js) [ none ↦ [] | some s ↦ trim_space s ]
]

unfoldable pub emoji_shortcode : Fields → Bytes
emoji_shortcode emoji =
    let id = string_field emoji (codes "emojiId") in
    if is_nil (first_shortcut emoji)
    then (if is_nil id then [] else b':' ∷ (id ++ b':' ∷ []))
    else first_shortcut emoji

unfoldable pub emoji_accessibility_label : Fields → Bytes
emoji_accessibility_label emoji = elim (as_obj (get (codes "image") emoji)) [
  | none ↦ []
  | some image ↦ elim (dig_two image (codes "accessibility") (codes "accessibilityData")) [
    | none ↦ []
    | some acc ↦ string_field acc (codes "label")
  ]
]

unfoldable pub normalize_image_url : Bytes → Bytes
normalize_image_url raw =
    let url = trim_space raw in
    if has_prefix (codes "//") url
    then codes "https:" ++ url
    else if has_prefix (codes "http://") url
    then codes "https://" ++ trim_prefix (codes "http://") url
    else url

unfoldable pub read_image : Fields → EmoteImage
read_image thumb = record {
  url = normalize_image_url (string_field thumb (codes "url"));
  width = int_field thumb (codes "width");
  height = int_field thumb (codes "height");
}

unfoldable pub read_images : Items → List EmoteImage
read_images nil = []
read_images (cons (obj thumb) js) =
    let rest = read_images js in
    if is_nil (string_field thumb (codes "url")) then rest else read_image thumb ∷ rest
read_images (cons _ js) = read_images js

-- The order of the images: the largest first, and as they were if the areas are equal. The product is an
-- int64.
unfoldable pub times : ℤ → ℤ → ℤ
times a (ℤ.pos n) = scale a n
times (ℤ.pos n) (ℤ.negsuc k) = scale (ℤ.negsuc k) n
times (ℤ.negsuc n) (ℤ.negsuc k) = ℤ.pos ((n + 1) * (k + 1))

unfoldable pub area : EmoteImage → ℤ
area i = wrap64 (times i.width i.height)

unfoldable pub insert_image : EmoteImage → List EmoteImage → List EmoteImage
insert_image i [] = i ∷ []
insert_image i (k ∷ ks) = if ltz (area i) (area k) then k ∷ insert_image i ks else i ∷ k ∷ ks

unfoldable pub sort_images : List EmoteImage → List EmoteImage
sort_images [] = []
sort_images (i ∷ is) = insert_image i (sort_images is)

unfoldable pub emoji_images : Fields → List EmoteImage
emoji_images emoji = elim (as_obj (get (codes "image") emoji)) [
  | none ↦ []
  | some image ↦ elim (as_arr (get (codes "thumbnails") image)) [
    | none ↦ []
    | some raw ↦ sort_images (read_images raw)
  ]
]

-- The units of UTF-16 for a text in UTF-8: two for a character of four bytes, else one; the bytes from
-- 128 to 191 continue a character.
unfoldable pub utf16_units : ℕ → ℕ
utf16_units c = if ltb c 128 then 1 else if ltb c 192 then 0 else if ltb c 240 then 1 else 2

unfoldable pub utf16_len : Bytes → ℕ
utf16_len s = total utf16_units s

pub record Reading : Type 0 where
  pub text : Bytes
  pub offset : ℕ
  pub emotes : List Emote

-- `builder.WriteString(s); offset += utf16Len(s)`
unfoldable pub write_text : Bytes → Reading → Reading
write_text s r = record r { text = r.text ++ s; offset = r.offset + utf16_len s }

unfoldable pub or_text : Bytes → Bytes → Bytes
or_text s t = if is_nil s then t else s

unfoldable pub write_emote : Fields → Bytes → Reading → Reading
write_emote emoji shortcode r = record {
  text = r.text ++ shortcode;
  offset = r.offset + utf16_len shortcode;
  emotes =
      r.emotes
      ++ record {
        id = or_text (string_field emoji (codes "emojiId")) shortcode;
        name = shortcode;
        locations = record { start = r.offset; stop = r.offset + utf16_len shortcode } ∷ [];
        images = emoji_images emoji;
      }
        ∷ [];
}

unfoldable pub read_emoji : Fields → Reading → Reading
read_emoji emoji r =
    if is_nil (emoji_shortcode emoji)
    then write_text (emoji_accessibility_label emoji) r
    else write_emote emoji (emoji_shortcode emoji) r

unfoldable pub read_emoji_run : Fields → Reading → Reading
read_emoji_run part r = elim (as_obj (get (codes "emoji") part)) [
  | none ↦ r
  | some emoji ↦ read_emoji emoji r
]

unfoldable pub read_run : Fields → Reading → Reading
read_run part r = elim (as_str (get (codes "text") part)) [
  | none ↦ read_emoji_run part r
  | some s ↦ write_text s r
]

unfoldable pub read_runs : Items → Reading → Reading
read_runs nil r = r
read_runs (cons (obj part) js) r = read_runs js (read_run part r)
read_runs (cons _ js) r = read_runs js r

unfoldable pub runs_text_and_emotes : Items → Bytes × List Emote
runs_text_and_emotes runs =
    let r = read_runs runs (record { text = []; offset = 0; emotes = [] }) in (r.text, r.emotes)

unfoldable pub message_text_and_emotes : Fields → Bytes × List Emote
message_text_and_emotes renderer = elim (as_obj (get (codes "message") renderer)) [
  | none ↦ ([], [])
  | some message ↦ elim (as_arr (get (codes "runs") message)) [
    | some runs ↦ runs_text_and_emotes runs
    | none ↦ (string_field message (codes "simpleText"), [])
  ]
]
