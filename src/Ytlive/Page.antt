-- ===== src/Ytlive/Page.antt =====
-- internal/ytlive/client.go: the page of a live stream, and what a receiver needs of it. The package
-- net/http's answers and json.Unmarshal are parameters.
pub mod Objects
pub mod Filled
use gnasty_chat.Prelude.{
  ℕ, zero, suc, ◌+◌, ◌-◌, Bool, true, false, ◌||◌, ◌&&◌, not, Option, none, some, List, [], ◌∷◌,
  ◌++◌, ◌==◌, if◌then◌else◌, is_nil, take,
}
use gnasty_chat.Text.{Bytes, codes, cut, cut_byte}
use gnasty_chat.Json.{Fields}
use gnasty_chat.Ytlive.Balanced.{prepend}
use gnasty_chat.Ytlive.Continuation.{or_else, find_initial_continuation}

unfoldable pub before_quote : Bytes → Bytes
before_quote s = elim (cut_byte 34 s) [ none ↦ [] | some (value, rest) ↦ value ]

-- The text from behind the marker to the next quote.
unfoldable pub extract_string : Bytes → Bytes → Bytes
extract_string text marker = elim (cut marker text) [
  | none ↦ []
  | some (before, after) ↦ before_quote after
]

unfoldable pub is_blank : ℕ → Bool
is_blank c = c == 32 || (c == 10 || (c == 13 || c == 9))

unfoldable pub skip_blank : Bytes → Bytes
skip_blank [] = []
skip_blank (c ∷ s) = if is_blank c then skip_blank s else c ∷ s

-- The depth of the braces behind a byte; none at the brace that closes the first one.
unfoldable pub next_depth : ℕ → ℕ → Option ℕ
next_depth c depth =
    if c == b'{'
    then some (suc depth)
    else if c == b'}'
    then (if depth == 1 then none else some (depth - 1))
    else some depth

unfoldable pub scan_braces : ℕ → Bytes → Option Bytes
scan_braces depth [] = none
scan_braces depth (c ∷ s) = elim (next_depth c depth) [
  | none ↦ some (c ∷ [])
  | some d ↦ prepend (c ∷ []) (scan_braces d s)
]

-- An object at the start of the text.
unfoldable pub object_here : Bytes → Option Bytes
object_here [] = none
object_here (c ∷ s) = if c == b'{' then scan_braces 0 (c ∷ s) else none

unfoldable pub object_text : Bytes → Bytes
object_text s = elim (object_here (skip_blank s)) [ none ↦ [] | some o ↦ o ]

unfoldable pub extract_json_object : Bytes → Bytes → Bytes
extract_json_object text marker = elim (cut marker text) [
  | none ↦ []
  | some (before, after) ↦ object_text after
]

-- The object behind the first of the markers that has one.
unfoldable pub first_object : Bytes → List Bytes → Bytes
first_object text [] = []
first_object text (marker ∷ markers) =
    or_else (extract_json_object text marker) (first_object text markers)

abbrev pub markers : List Bytes
markers =
    codes "ytInitialData\"] = "
    ∷ codes "ytInitialData\" = "
    ∷ codes "ytInitialData\":"
    ∷ codes "ytInitialData = "
    ∷ codes "window[\"ytInitialData\"] = "
    ∷ []

-- What net/http answers: an error, or a status and a body.
pub data Answer : Type 0 where
  unanswered : Answer
  answered : ℕ → Bytes → Answer

pub data BootError : Type 0 where
  no_answer bad_status no_keys no_data bad_data no_continuation : BootError

pub data Boot : Type 0 where
  boot_failed : BootError → Boot
  booted : Bytes → Bytes → Bytes → Boot

-- A search that ends finds a text, which is empty if there is no continuation.
unfoldable pub continuation_of : Fields → Bytes
continuation_of data_ = elim (find_initial_continuation data_) [ none ↦ [] | some c ↦ c ]

unfoldable pub boot_with : Bytes → Bytes → Bytes → Boot
boot_with key version continuation =
    if is_nil continuation then boot_failed no_continuation else booted key version continuation

-- The body is read up to a limit.
abbrev pub page_limit : ℕ
page_limit = 5_242_880

module _ (unmarshal : Bytes → Option Fields) where
  unfoldable pub read_data : Bytes → Bytes → Bytes → Boot
  read_data key version init_json = elim (unmarshal init_json) [
    | none ↦ boot_failed bad_data
    | some data_ ↦ boot_with key version (continuation_of data_)
  ]

  unfoldable pub read_page : Bytes → Boot
  read_page text =
      let key = extract_string text (codes "\"INNERTUBE_API_KEY\":\"") in
      let version = extract_string text (codes "\"INNERTUBE_CLIENT_VERSION\":\"") in
      let init_json = first_object text markers in
      if is_nil key || is_nil version
      then boot_failed no_keys
      else if is_nil init_json
      then boot_failed no_data
      else read_data key version init_json

  unfoldable pub bootstrap : Answer → Boot
  bootstrap unanswered = boot_failed no_answer
  bootstrap (answered status body) =
      if status == 200 then read_page (take page_limit body) else boot_failed bad_status
