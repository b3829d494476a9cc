-- ===== src/Text/Decimal.antt =====
-- Decimal numbers: strconv.Itoa, and strconv.ParseInt at base 10 and 64 bits, which strconv.Atoi is on
-- the 64-bit platforms that the program is built for.
use gnasty_chat.Text.Trim.{append-ne-nil}
use gnasty_chat.Prelude.{
  ◌≢◌, ℕ, zero, suc, ◌+◌, ◌-◌, ◌*◌, ◌/◌, ◌%◌, ◌^◌, ◌≤◌, ◌<◌, Bool, true, ◌&&◌, Option, none, some,
  [], ◌∷◌, ◌++◌, ◌≡◌, refl, arith, ltb, leb, if◌then◌else◌, ℤ, pos, negsuc, is_nil, ◌==◌,
  Bool-cases, inl, inr,
}
use gnasty_chat.Text.{Bytes}

abbrev pub max_int64 : ℕ
max_int64 = 2 ^ 63 - 1

pub is_digit : ℕ → Bool
is_digit c = leb b'0' c && leb c b'9'

-- The digits that follow a number read so far.
pub scan : Bytes → ℕ → Option ℕ
unfolding is_digit
scan [] n = some n
scan (c ∷ s) n = let rest = scan s (n * 10 + (c - b'0')) in if is_digit c then rest else none

unsigned : Bytes → Option ℕ
unfolding scan
unsigned s = if is_nil s then none else scan s 0

positive : Option ℕ → Option ℤ
positive none = none
positive (some n) = if leb n max_int64 then some (pos n) else none

negative : Option ℕ → Option ℤ
negative none = none
negative (some zero) = some (pos 0)
negative (some (suc n)) = if leb n max_int64 then some (negsuc n) else none

unfoldable pub parse_int : Bytes → Option ℤ
unfolding unsigned positive negative
parse_int [] = none
parse_int (c ∷ s) =
    if c == b'-'
    then negative (unsigned s)
    else if c == b'+'
    then positive (unsigned s)
    else positive (unsigned (c ∷ s))

pub digits : ℕ → ℕ → Bytes
digits zero n = []
digits (suc f) n =
    let rest = digits f (n / 10) in
    if ltb n 10 then (b'0' + n) ∷ [] else rest ++ (b'0' + n % 10) ∷ []

-- The fuel `n + 1` is more than the number of digits.
unfoldable pub itoa : ℕ → Bytes
unfolding digits
itoa n = digits (suc n) n

scan-append :
    (s : Bytes) (d n k : ℕ)
    → scan s n ≡ some k
    → d < 10
    → scan (s ++ (b'0' + d) ∷ []) n ≡ some (k * 10 + d)
unfolding scan
scan-append [] d n k h lt = ground arith
scan-append (c ∷ s) d n k h lt = ground (arith, scan-append s d (n * 10 + (c - b'0')) k)

scan_digit : (n : ℕ) → n < 10 → scan ((b'0' + n) ∷ []) 0 ≡ some n
unfolding scan
scan_digit n h = ground arith

scan-digits : (f n : ℕ) → n < f → scan (digits f n) 0 ≡ some n
unfolding digits
scan-digits zero n h = elim h [ ]
scan-digits (suc f) n h = ground (
  arith,
  scan-digits f (n / 10),
  scan-append (digits f (n / 10)) (n % 10) 0 (n / 10),
  scan_digit n,
)

-- `Itoa` writes digits that read back as the number.
pub scan-itoa : (n : ℕ) → scan (itoa n) 0 ≡ some n
unfolding itoa
scan-itoa n = scan-digits (suc n) n (omega arith)

pub is_digit-digits :
    (f n : ℕ) → n < f → (c : ℕ) × (s : Bytes) × (digits f n ≡ c ∷ s) × (is_digit c ≡ true)
unfolding digits is_digit
is_digit-digits zero n h = elim h [ ]
is_digit-digits (suc f) n h = elim (Bool-cases (ltb n 10)) [
  | inl e ↦ (b'0' + n, [], rw e refl, ground arith)
  | inr e ↦
      let (c, s, starts, ok) = is_digit-digits f (n / 10) (ground arith) in
      (c, s ++ (b'0' + n % 10) ∷ [], rw (e, starts) refl, ok)
]

parse_int-digits :
    (c : ℕ) (s : Bytes) (n : ℕ)
    → is_digit c ≡ true
    → scan (c ∷ s) 0 ≡ some n
    → n ≤ max_int64
    → parse_int (c ∷ s) ≡ some (pos n)
unfolding parse_int is_digit
parse_int-digits c s n ok value fits = ground arith

itoa_starts : (n : ℕ) → (c : ℕ) × (s : Bytes) × (itoa n ≡ c ∷ s) × (is_digit c ≡ true)
unfolding itoa
itoa_starts n = is_digit-digits (suc n) n (omega arith)

-- A number below 2^63 is read back from its decimal print.
pub parse_int-itoa : (n : ℕ) → n ≤ max_int64 → parse_int (itoa n) ≡ some (pos n)
parse_int-itoa n fits =
    let (c, s, starts, ok) = itoa_starts n in
    rw starts (parse_int-digits c s n ok (rw starts at (scan-itoa n)) fits)

pub itoa-ne-nil : (n : ℕ) → itoa n ≢ []
unfolding itoa digits
itoa-ne-nil n = elim (Bool-cases (ltb n 10)) [
  | inl e ↦ rw e (ground arith)
  | inr e ↦ rw e (append-ne-nil (digits n (n / 10)) _ (ground arith))
]
