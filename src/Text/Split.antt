-- ===== src/Text/Split.antt =====
-- `Split` and `Join` at one byte are inverse to one another.
use gnasty_chat.Prelude.{ℕ, List, [], ◌∷◌, ◌++◌, ◌≡◌, ◌≢◌, refl, ap, arith, All}
use gnasty_chat.Text.{Bytes, split, join}
use gnasty_chat.Text.Search.{Lacks}

pub split-ne-nil : (b : ℕ) (s : Bytes) → split b s ≢ []
unfolding split
split-ne-nil b [] h = cc
split-ne-nil b (c ∷ s) h = ground (arith, split-ne-nil b s)

-- No part holds the separator.
pub split-Lacks : (b : ℕ) (s : Bytes) → All (Lacks b) (split b s)
unfolding split
split-Lacks b [] = (tt, tt)
split-Lacks b (c ∷ s) = ground (arith, split-Lacks b s)

split_piece : (b : ℕ) (p s : Bytes) → Lacks b p → split b (p ++ b ∷ s) ≡ p ∷ split b s
unfolding split
split_piece b [] s h = ground arith
split_piece b (c ∷ p) s h = ground (arith, split_piece b p s h.1)

split_last : (b : ℕ) (p : Bytes) → Lacks b p → split b p ≡ p ∷ []
unfolding split
split_last b [] h = refl
split_last b (c ∷ p) h = ground (arith, split_last b p h.1)

-- Splitting a join gives the parts back.
pub split-join :
    (b : ℕ) (p : Bytes) (ps : List Bytes)
    → All (Lacks b) (p ∷ ps)
    → split b (join (b ∷ []) (p ∷ ps)) ≡ p ∷ ps
unfolding join
split-join b p [] h = split_last b p h.0
split-join b p (q ∷ ps) h =
    rw (split_piece b p (join (b ∷ []) (q ∷ ps)) h.0) (ap (◌∷◌ p) (split-join b q ps h.1))
