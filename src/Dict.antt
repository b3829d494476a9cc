-- ===== src/Dict.antt =====
-- Go's maps with string keys, as association lists. The order of the entries stands for the order in
-- which `range` visits them, which Go leaves open.
use gnasty_chat.Prelude.{
  Option, none, some, List, [], ◌∷◌, ◌≡◌, refl, arith, if◌then◌else◌, All, inl, inr, Bool-cases,
}
use gnasty_chat.Text.{Bytes, beq}
use gnasty_chat.Text.Equality.{beq_iff, beq_refl}

abbrev pub Dict {ℓ} : Type ℓ → Type ℓ
Dict V = List (Bytes × V)

module _ {ℓ} {V : Type ℓ} where
  -- v, ok := m[k]
  unfoldable pub lookup : Bytes → Dict V → Option V
  lookup k [] = none
  lookup k ((j, v) ∷ m) = if beq j k then some v else lookup k m

  -- m[k], with the zero value of a missing key
  unfoldable pub get_or : Bytes → Dict V → V → V
  unfolding lookup
  get_or k m d = elim (lookup k m) [ none ↦ d | some v ↦ v ]

  -- m[k] = v
  unfoldable pub insert : Bytes → V → Dict V → Dict V
  insert k v [] = (k, v) ∷ []
  insert k v ((j, w) ∷ m) = if beq j k then (k, v) ∷ m else (j, w) ∷ insert k v m

  abbrev pub keys : Dict V → List Bytes
  keys [] = []
  keys ((k, v) ∷ m) = k ∷ keys m

  pub lookup-insert :
      (k j : Bytes) (v : V) (m : Dict V)
      → lookup j (insert k v m) ≡ (if beq k j then some v else lookup j m)
  unfolding lookup insert
  lookup-insert k j v [] = refl
  lookup-insert k j v ((i, w) ∷ m) =
      ground (arith, beq_iff k j, beq_iff i k, beq_iff i j, lookup-insert k j v m)

  pub lookup-insert_self : (k : Bytes) (v : V) (m : Dict V) → lookup k (insert k v m) ≡ some v
  lookup-insert_self k v m = simp (lookup-insert, beq_refl)

  module _ {κ} (P : V → Type κ) where
    abbrev pub AllValues : Dict V → Type κ
    AllValues = All λ e. P e.1

    pub AllValues-insert :
        (k : Bytes) (v : V) (m : Dict V) → P v → AllValues m → AllValues (insert k v m)
    unfolding insert
    AllValues-insert k v [] p h = (p, tt)
    AllValues-insert k v ((j, w) ∷ m) p h = elim (Bool-cases (beq j k)) [
      | inl e ↦ rw e (p, h.1)
      | inr e ↦ rw e (h.0, AllValues-insert k v m p h.1)
    ]

    pub AllValues-get_or : (k : Bytes) (m : Dict V) (d : V) → P d → AllValues m → P (get_or k m d)
    unfolding get_or lookup
    AllValues-get_or k [] d p h = p
    AllValues-get_or k ((j, w) ∷ m) d p h = elim (Bool-cases (beq j k)) [
      | inl e ↦ rw (e, get_or, lookup) h.0
      | inr e ↦ rw (e, get_or, lookup) (AllValues-get_or k m d p h.1)
    ]
