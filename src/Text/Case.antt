-- ===== src/Text/Case.antt =====
-- Lower case.
use gnasty_chat.Prelude.{ℕ, true, [], ◌∷◌, ◌≡◌, ◌≢◌, refl, arith}
use gnasty_chat.Text.{Bytes, lower_byte, to_lower, equal_fold}
use gnasty_chat.Text.Equality.{beq_refl, beq→eq}

lower_byte_idem : (c : ℕ) → lower_byte (lower_byte c) ≡ lower_byte c
unfolding lower_byte
lower_byte_idem c = ground arith

pub to_lower_idem : (s : Bytes) → to_lower (to_lower s) ≡ to_lower s
unfolding to_lower
to_lower_idem [] = refl
to_lower_idem (c ∷ s) = cc (lower_byte_idem c, to_lower_idem s)

pub to_lower-ne-nil : (s : Bytes) → s ≢ [] → to_lower s ≢ []
unfolding to_lower
to_lower-ne-nil [] h e = h refl
to_lower-ne-nil (c ∷ s) h e = cc

-- Texts that are folded alike are equal in lower case, and the other way round.
pub equal_fold→eq : (s t : Bytes) → equal_fold s t ≡ true → to_lower s ≡ to_lower t
unfolding equal_fold
equal_fold→eq s t h = beq→eq (to_lower s) (to_lower t) h

pub equal_fold_refl : (s : Bytes) → equal_fold s s ≡ true
unfolding equal_fold
equal_fold_refl s = beq_refl (to_lower s)
