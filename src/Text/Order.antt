-- ===== src/Text/Order.antt =====
-- The order of Go strings, and `sort.Strings`.
use gnasty_chat.Prelude.{
  ℕ, ◌+◌, Bool, true, false, ◌||◌, ◌&&◌, List, [], ◌∷◌, ◌≡◌, refl, inl, inr, arith, ltb, ◌==◌,
  if◌then◌else◌, total, All, Bool-cases,
}
use gnasty_chat.Text.{Bytes}

-- s <= t
unfoldable pub lex_le : Bytes → Bytes → Bool
lex_le [] t = true
lex_le (c ∷ s) [] = false
lex_le (c ∷ s) (d ∷ t) = ltb c d || ((c == d) && lex_le s t)

unfoldable pub insert_sorted : Bytes → List Bytes → List Bytes
insert_sorted s [] = s ∷ []
insert_sorted s (t ∷ ts) = if lex_le s t then s ∷ t ∷ ts else t ∷ insert_sorted s ts

unfoldable pub sort_strings : List Bytes → List Bytes
unfolding insert_sorted lex_le
sort_strings [] = []
sort_strings (s ∷ ss) = insert_sorted s (sort_strings ss)

lex_le_total : (s t : Bytes) → lex_le s t ≡ false → lex_le t s ≡ true
unfolding lex_le
lex_le_total [] t h = cc
lex_le_total (c ∷ s) [] h = refl
lex_le_total (c ∷ s) (d ∷ t) h = ground (arith, lex_le_total s t)

-- Neighbours are in order.
abbrev pub IsSorted : List Bytes → Type 0
IsSorted [] = Unit
IsSorted (s ∷ []) = Unit
IsSorted (s ∷ t ∷ ts) = (lex_le s t ≡ true) × IsSorted (t ∷ ts)

insert_sorted-IsSorted : (s : Bytes) (ts : List Bytes) → IsSorted ts → IsSorted (insert_sorted s ts)
unfolding insert_sorted
insert_sorted-IsSorted s [] h = tt
insert_sorted-IsSorted s (t ∷ []) h = ground (arith, lex_le_total s t)
insert_sorted-IsSorted s (t ∷ u ∷ ts) h =
    ground (arith, lex_le_total s t, insert_sorted-IsSorted s (u ∷ ts) h.1)

pub sort_strings-IsSorted : (ss : List Bytes) → IsSorted (sort_strings ss)
unfolding sort_strings
sort_strings-IsSorted [] = tt
sort_strings-IsSorted (s ∷ ss) =
    insert_sorted-IsSorted s (sort_strings ss) (sort_strings-IsSorted ss)

total-insert_sorted :
    (f : Bytes → ℕ) (s : Bytes) (ts : List Bytes) → total f (insert_sorted s ts) ≡ f s + total f ts
unfolding insert_sorted
total-insert_sorted f s [] = refl
total-insert_sorted f s (t ∷ ts) = ground (arith, total-insert_sorted f s ts)

-- Sorting keeps every string as often as it was there.
pub total-sort_strings : (f : Bytes → ℕ) (ss : List Bytes) → total f (sort_strings ss) ≡ total f ss
unfolding sort_strings
total-sort_strings f [] = refl
total-sort_strings f (s ∷ ss) =
    omega (arith, total-insert_sorted f s (sort_strings ss), total-sort_strings f ss)

module _ {κ} (P : Bytes → Type κ) where
  All-insert_sorted : (s : Bytes) (ts : List Bytes) → P s → All P ts → All P (insert_sorted s ts)
  unfolding insert_sorted
  All-insert_sorted s [] ps h = (ps, tt)
  All-insert_sorted s (t ∷ ts) ps h = elim (Bool-cases (lex_le s t)) [
    | inl e ↦ rw e (ps, h)
    | inr e ↦ rw e (h.0, All-insert_sorted s ts ps h.1)
  ]

  pub All-sort_strings : (ss : List Bytes) → All P ss → All P (sort_strings ss)
  unfolding sort_strings
  All-sort_strings [] h = tt
  All-sort_strings (s ∷ ss) h = All-insert_sorted s (sort_strings ss) h.0 (All-sort_strings ss h.1)
