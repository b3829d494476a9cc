-- ===== src/Ytlive/Resolver/Found.antt =====
-- internal/ytlive/resolver.go: what extractJSONAssignment finds, and that its loop ends.
use gnasty_chat.Prelude.{
  ℕ, zero, suc, ◌<◌, ◌||◌, Option, none, some, [], ◌∷◌, ◌++◌, ◌==◌, ◌≡◌, refl, sym, ◌∙◌, ap, subst,
  arith, inl, inr, Bool-cases, Option-cases, length, length-append, append_assoc,
}
use gnasty_chat.Text.{Bytes, cut}
use gnasty_chat.Text.Search.{cut_sound}
use gnasty_chat.Ytlive.Balanced.{slice_balanced}
use gnasty_chat.Ytlive.Balanced.Prefixes.{slice_balanced_sound}
use gnasty_chat.Ytlive.Resolver.Assignment.{
  is_space_byte, skip_to_equals, skip_spaces, Attempt, gives_up, tries_again, takes, take_balanced,
  value_at, behind_equals, attempt, Search, out_of_fuel, absent, found, conclude, search_from,
  extract_json_assignment,
}

-- Somewhere in the text stands the JSON, and `slice_balanced` cuts it off there.
abbrev pub IsCut : Bytes → Bytes → Type 0
IsCut s json = (p r : Bytes) × (s ≡ p ++ (json ++ r)) × (slice_balanced (json ++ r) ≡ some json)

-- The same behind the name. The fuel is not used up.
abbrev pub IsFound : Bytes → Bytes → Search → Type 0
IsFound body marker out_of_fuel = ⊥
IsFound body marker absent = Unit
IsFound body marker (found json) =
    (before after : Bytes) × (body ≡ before ++ (marker ++ after)) × IsCut after json

abbrev IsTaken : Bytes → Attempt → Type 0
IsTaken s (takes json) = IsCut s json
IsTaken s _ = Unit

IsTaken-append : (p s : Bytes) (a : Attempt) → IsTaken s a → IsTaken (p ++ s) a
IsTaken-append p s gives_up h = tt
IsTaken-append p s tries_again h = tt
IsTaken-append p s (takes json) (q, r, e, b) =
    (p ++ q, r, ap (λ t. p ++ t) e ∙ sym (append_assoc p q (json ++ r)), b)

take_balanced-IsTaken : (s : Bytes) → IsTaken s (take_balanced s)
unfolding take_balanced
take_balanced-IsTaken s = elim (Option-cases (slice_balanced s)) [
  | inl e ↦ subst (IsTaken s) (sym (ap taken e)) tt
  | inr (json, e) ↦
      subst (IsTaken s) (sym (ap taken e)) (cut_off json e (slice_balanced_sound s json e))
]
  where
    taken : Option Bytes → Attempt
    taken none = tries_again
    taken (some json) = takes json

    cut_off :
        (json : Bytes)
        → slice_balanced s ≡ some json
        → ((r : Bytes) × (s ≡ json ++ r))
        → IsCut s json
    cut_off json e (r, p) = ([], r, p, subst (λ t. slice_balanced t ≡ some json) p e)

value_at-IsTaken : (s : Bytes) → IsTaken s (value_at s)
unfolding value_at
value_at-IsTaken [] = tt
value_at-IsTaken (c ∷ s) = elim (Bool-cases (c == b'{' || c == b'[')) [
  | inl e ↦ rw e (take_balanced-IsTaken (c ∷ s))
  | inr e ↦ rw e tt
]

skip_spaces_sound : (s : Bytes) → (p : Bytes) × (s ≡ p ++ skip_spaces s)
unfolding skip_spaces
skip_spaces_sound [] = ([], refl)
skip_spaces_sound (c ∷ s) = elim (Bool-cases (is_space_byte c)) [
  | inl e ↦ rw e (c ∷ (skip_spaces_sound s).0, ap (λ t. c ∷ t) (skip_spaces_sound s).1)
  | inr e ↦ rw e ([], refl)
]

skip_to_equals_sound : (s t : Bytes) → skip_to_equals s ≡ some t → (p : Bytes) × (s ≡ p ++ t)
unfolding skip_to_equals
skip_to_equals_sound [] t h = absurd cc
skip_to_equals_sound (c ∷ s) t h = elim (Bool-cases (c == b'=')) [
  | inl e ↦ let same : s ≡ t = ground arith in (c ∷ [], ap (λ u. c ∷ u) same)
  | inr e ↦
      let more : skip_to_equals s ≡ some t = ground arith in
      (c ∷ (skip_to_equals_sound s t more).0, ap (λ u. c ∷ u) (skip_to_equals_sound s t more).1)
]

behind_equals-IsTaken : (s : Bytes) → IsTaken s (behind_equals (some s))
unfolding behind_equals
behind_equals-IsTaken [] = tt
behind_equals-IsTaken (c ∷ s) =
    subst (λ t. IsTaken t (value_at (skip_spaces (c ∷ s)))) (sym (skip_spaces_sound (c ∷ s)).1)
      (IsTaken-append (skip_spaces_sound (c ∷ s)).0 (skip_spaces (c ∷ s)) _
        (value_at-IsTaken (skip_spaces (c ∷ s))))

attempt-IsTaken : (s : Bytes) → IsTaken s (attempt s)
unfolding attempt behind_equals
attempt-IsTaken s = elim (Option-cases (skip_to_equals s)) [
  | inl e ↦ subst (λ o. IsTaken s (behind_equals o)) (sym e) tt
  | inr (t, e) ↦
      subst (λ o. IsTaken s (behind_equals o)) (sym e)
        (subst (λ u. IsTaken u (behind_equals (some t))) (sym (skip_to_equals_sound s t e).1)
          (IsTaken-append (skip_to_equals_sound s t e).0 t _ (behind_equals-IsTaken t)))
]

-- Behind a name the text is shorter.
cut-shorter :
    (c : ℕ) (name s before after : Bytes)
    → cut (c ∷ name) s ≡ some (before, after)
    → length after < length s
cut-shorter c name s before after h = omega (
  arith,
  ap length (cut_sound (c ∷ name) s before after h),
  length-append before (c ∷ name ++ after),
  length-append name after,
)

search_from-none :
    (fuel : ℕ) (body marker : Bytes)
    → cut marker body ≡ none
    → search_from (suc fuel) body marker ≡ absent
unfolding search_from
search_from-none fuel body marker h = rw (h, search_from) refl

search_from-some :
    (fuel : ℕ) (body marker before after : Bytes)
    → cut marker body ≡ some (before, after)
    → search_from (suc fuel) body marker ≡ conclude (attempt after) (search_from fuel after marker)
unfolding search_from
search_from-some fuel body marker before after h = rw (h, search_from) refl

-- Behind one occurrence, what is found was found behind it, or at a later one.
conclude-IsFound :
    (a : Attempt) (more : Search) (body marker before after : Bytes)
    → body ≡ before ++ (marker ++ after)
    → IsTaken after a
    → IsFound after marker more
    → IsFound body marker (conclude a more)
unfolding conclude
conclude-IsFound gives_up more body marker before after e h m = tt
conclude-IsFound (takes json) more body marker before after e h m = (before, after, e, h)
conclude-IsFound tries_again out_of_fuel body marker before after e h m = absurd m
conclude-IsFound tries_again absent body marker before after e h m = tt
conclude-IsFound tries_again (found json) body marker before after e h (p, s, e', m) = (
  before ++ (marker ++ p),
  s,
  e
      ∙ ap (λ t. before ++ (marker ++ t)) e'
      ∙ ap (λ t. before ++ t) (sym (append_assoc marker p (marker ++ s)))
      ∙ sym (append_assoc before (marker ++ p) (marker ++ s)),
  m,
)

search_from-IsFound :
    (fuel : ℕ) (body : Bytes) (c : ℕ) (name : Bytes)
    → length body < fuel
    → IsFound body (c ∷ name) (search_from fuel body (c ∷ name))
search_from-IsFound zero body c name h = ground arith
search_from-IsFound (suc fuel) body c name h = elim (Option-cases (cut (c ∷ name) body)) [
  | inl e ↦ subst (IsFound body (c ∷ name)) (sym (search_from-none fuel body (c ∷ name) e)) tt
  | inr ((before, after), e) ↦
      subst (IsFound body (c ∷ name)) (sym (search_from-some fuel body (c ∷ name) before after e)) (
        conclude-IsFound (attempt after) _ body (c ∷ name) before after
          (cut_sound (c ∷ name) body before after e) (attempt-IsTaken after)
          (search_from-IsFound fuel after c name
            (omega (arith, cut-shorter c name body before after e))))
]

-- Of every page and for every name that is not empty, the loop ends within the fuel it is given;
-- what it finds stands in the page behind the name, and `slice_balanced` cuts it off there.
pub extract_json_assignment-IsFound :
    (c : ℕ) (name body : Bytes) → IsFound body (c ∷ name) (extract_json_assignment body (c ∷ name))
unfolding extract_json_assignment
extract_json_assignment-IsFound c name body =
    search_from-IsFound (suc (length body)) body c name (omega arith)
