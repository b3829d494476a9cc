-- ===== src/Config/Lists.antt =====
-- internal/config/config.go: splitList, dedupe and the test of HasSink.
use gnasty_chat.Prelude.{
  ℕ, ◌≤◌, Bool, false, ◌||◌, List, [], ◌∷◌, ◌≡◌, ◌≢◌, refl, arith, ◌==◌, if◌then◌else◌, is_nil,
  total, min,
}
use gnasty_chat.Text.{Bytes, beq, trim_space, to_lower, fields_func}
use gnasty_chat.Text.Equality.{beq_iff}
use gnasty_chat.Text.Trim.{trim_space-eq_self, trim_space-IsTrimmed}
use gnasty_chat.Text.Order.{sort_strings, IsSorted, sort_strings-IsSorted, total-sort_strings}

unfoldable pub member : Bytes → List Bytes → Bool
member s [] = false
member s (t ∷ ts) = beq s t || member s ts

unfoldable pub key_of : Bytes → Bytes
key_of v = to_lower (trim_space v)

unfoldable pub member_folded : Bytes → List Bytes → Bool
member_folded name [] = false
member_folded name (s ∷ ss) = beq (key_of s) (key_of name) || member_folded name ss

-- The loop of `dedupe`, with the keys seen.
unfoldable pub distinct : List Bytes → List Bytes → List Bytes
distinct seen [] = []
distinct seen (v ∷ vs) =
    let new = distinct (key_of v ∷ seen) vs in
    let rest = distinct seen vs in
    if is_nil (key_of v) || member (key_of v) seen then rest else trim_space v ∷ new

unfoldable pub dedupe : List Bytes → List Bytes
dedupe vs = sort_strings (distinct [] vs)

unfoldable pub is_separator : ℕ → Bool
is_separator c = c == b',' || c == b';' || c == 32 || c == 9 || c == 10

unfoldable pub keep_parts : List Bytes → List Bytes
keep_parts [] = []
keep_parts (p ∷ ps) =
    let rest = keep_parts ps in if is_nil (trim_space p) then rest else trim_space p ∷ rest

unfoldable pub split_list : Bytes → List Bytes
split_list raw = dedupe (keep_parts (fields_func is_separator (trim_space raw) []))

-- How many of the values have the key.
pub count : Bytes → List Bytes → ℕ
count k vs = total (λ v. if beq (key_of v) k then 1 else 0) vs

key_of-trim_space : (v : Bytes) → key_of (trim_space v) ≡ key_of v
unfolding key_of
key_of-trim_space v = rw (trim_space-eq_self (trim_space v) (trim_space-IsTrimmed v)) refl

count-distinct :
    (k : Bytes) (seen vs : List Bytes)
    → count k (distinct seen vs) ≡ (if is_nil k || member k seen then 0 else min 1 (count k vs))
unfolding distinct count member
count-distinct k seen [] = ground arith
count-distinct k seen (v ∷ vs) = ground (
  arith,
  key_of-trim_space v,
  beq_iff (key_of v) k,
  beq_iff k (key_of v),
  count-distinct k seen vs,
  count-distinct k (key_of v ∷ seen) vs,
)

-- Sorted, with no blank value, and no key twice.
pub record IsDeduped (vs : List Bytes) : Type 0 where
  pub sorted : IsSorted vs
  pub none_blank : count [] vs ≡ 0
  pub distinct_keys : (k : Bytes) → count k vs ≤ 1

count-dedupe :
    (k : Bytes) (vs : List Bytes)
    → count k (dedupe vs) ≡ (if is_nil k then 0 else min 1 (count k vs))
unfolding dedupe count member
count-dedupe k vs =
    let sorts = total-sort_strings (λ v. if beq (key_of v) k then 1 else 0) (distinct [] vs) in
    let keeps = count-distinct k [] vs in ground (arith, sorts, keeps)

pub dedupe-IsDeduped : (vs : List Bytes) → IsDeduped (dedupe vs)
dedupe-IsDeduped vs = record {
  sorted = unfold dedupe in sort_strings-IsSorted (distinct [] vs);
  none_blank = count-dedupe [] vs;
  distinct_keys = λ k. ground (arith, count-dedupe k vs);
}

-- `dedupe` returns a sorted list with no blank value and no two values that differ only in case
-- or in white space around them, and it has a value for exactly the keys of the values given, the
-- blank one aside.
pub dedupe_keys :
    (vs : List Bytes)
    → IsDeduped (dedupe vs) × ((k : Bytes) → k ≢ [] → count k (dedupe vs) ≡ min 1 (count k vs))
dedupe_keys vs = (dedupe-IsDeduped vs, λ k n. by_key k n)
  where
    by_key : (k : Bytes) → k ≢ [] → count k (dedupe vs) ≡ min 1 (count k vs)
    by_key [] n = absurd (n refl)
    by_key (c ∷ k) n = count-dedupe (c ∷ k) vs
