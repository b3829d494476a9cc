-- ===== src/Text/Equality.antt =====
-- `s == t` on byte lists decides equality.
use gnasty_chat.Prelude.{true, false, [], ◌∷◌, ◌≡◌, ◌↔◌, ◌⊎◌, inl, inr, refl, arith, Bool-cases}
use gnasty_chat.Text.{Bytes, beq}

pub beq→eq : (s t : Bytes) → beq s t ≡ true → s ≡ t
unfolding beq
beq→eq [] [] h = refl
beq→eq [] (d ∷ t) h = cc
beq→eq (c ∷ s) [] h = cc
beq→eq (c ∷ s) (d ∷ t) h = ground (arith, beq→eq s t)

pub beq_refl : (s : Bytes) → beq s s ≡ true
unfolding beq
beq_refl [] = refl
beq_refl (c ∷ s) = ground (arith, beq_refl s)

pub beq_iff : (s t : Bytes) → (beq s t ≡ true) ↔ (s ≡ t)
beq_iff s t = (beq→eq s t, λ e. rw (← e) (beq_refl s))

pub beq-cases : (s t : Bytes) → (s ≡ t) ⊎ (beq s t ≡ false)
beq-cases s t = elim (Bool-cases (beq s t)) [ inl e ↦ inl (beq→eq s t e) | inr e ↦ inr e ]
