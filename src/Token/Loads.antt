-- ===== src/Token/Loads.antt =====
-- What the loader of internal/twitch/token.go returns.
use gnasty_chat.Prelude.{
  Bool, true, false, not, some, [], ◌∷◌, ◌++◌, ◌≡◌, subst, ◌≢◌, ◌⊎◌, inl, inr, refl, is_nil,
  Bool-cases, ap, sym, ◌∙◌,
}
use gnasty_chat.Text.{Bytes, beq, has_prefix, trim_space, is_space}
use gnasty_chat.Text.Equality.{beq_iff, beq_refl}
use gnasty_chat.Text.Trim.{IsTrimmed, EndsClean-append, trim_space-IsTrimmed, trim_space-append}
use gnasty_chat.Token.{prefix, normalize_token, Loader, Loaded, token, empty, load}

has_prefix-append : (s : Bytes) → has_prefix prefix (prefix ++ s) ≡ true
unfolding has_prefix
has_prefix-append s = refl

is_nil_ne : (s : Bytes) → is_nil s ≡ false → s ≢ []
is_nil_ne [] h = cc
is_nil_ne (c ∷ s) h = cc

prefixed-IsTrimmed : (s : Bytes) → IsTrimmed s → s ≢ [] → IsTrimmed (prefix ++ s)
prefixed-IsTrimmed s t n = record {
  starts = unfold is_space in refl;
  ends = EndsClean-append prefix s n t.ends;
}

-- What a normalized token looks like.
pub record IsToken (t : Bytes) : Type 0 where
  pub trimmed : IsTrimmed t
  pub prefixed : has_prefix prefix t ≡ true

pub normalize_token-IsToken : (s : Bytes) → (normalize_token s ≡ []) ⊎ IsToken (normalize_token s)
unfolding normalize_token
normalize_token-IsToken s = elim (Bool-cases (is_nil (trim_space s))) [
  | inl e ↦ rw e (inl refl)
  | inr e ↦ elim (Bool-cases (has_prefix prefix (trim_space s))) [
    | inl p ↦ rw (e, p) (inr (record { trimmed = trim_space-IsTrimmed s; prefixed = p }))
    | inr p ↦
        rw (e, p)
          (inr (record {
            trimmed =
                prefixed-IsTrimmed (trim_space s) (trim_space-IsTrimmed s)
                  (is_nil_ne (trim_space s) e);
            prefixed = has_prefix-append (trim_space s);
          }))
  ]
]

-- A load that returns a token: it is trimmed and begins with `oauth:`, the loader remembers it, it is
-- reported as new exactly if it differs from the one remembered before, and another load of the same
-- content returns it again, as no longer new.
pub record IsLoaded (content : Bytes) (l : Loader) (t : Bytes) (new : Bool) : Type 0 where
  pub well_formed : IsToken t
  pub remembered : (load (some content) l).1.cached ≡ t
  pub new_if_different : new ≡ not (beq t l.cached)
  pub stable :
      load (some content) (load (some content) l).1 ≡ (token t false, (load (some content) l).1)

-- A content that holds a token, loaded when the loader remembers it, and when it does not.
load_known :
    (content : Bytes) (l : Loader)
    → is_nil (normalize_token content) ≡ false
    → beq (normalize_token content) l.cached ≡ true
    → load (some content) l ≡ (token l.cached false, l)
unfolding load
load_known content l e h = rw (e, h) refl

load_new :
    (content : Bytes) (l : Loader)
    → is_nil (normalize_token content) ≡ false
    → beq (normalize_token content) l.cached ≡ false
    → load (some content) l
      ≡ (token (normalize_token content) true, record { cached = normalize_token content })
unfolding load
load_new content l e h = rw (e, h) refl

load_empty :
    (content : Bytes) (l : Loader)
    → is_nil (normalize_token content) ≡ true
    → load (some content) l ≡ (empty, record { cached = [] })
unfolding load
load_empty content l e = rw e refl

empty-ne-token : {t : Bytes} {b : Bool} → ◌≢◌ {A = Loaded} empty (token t b)
empty-ne-token = cc

token-injective :
    {t u : Bytes} {b c : Bool} → ◌≡◌ {A = Loaded} (token t b) (token u c) → (t ≡ u) × (b ≡ c)
token-injective h = (cc, cc)

IsToken-normalize_token :
    (s : Bytes) → is_nil (normalize_token s) ≡ false → IsToken (normalize_token s)
IsToken-normalize_token s e = elim (normalize_token-IsToken s) [
  | inl n ↦ absurd (is_nil_ne (normalize_token s) e n)
  | inr t ↦ t
]

known-IsLoaded :
    (content : Bytes) (l : Loader)
    → is_nil (normalize_token content) ≡ false
    → beq (normalize_token content) l.cached ≡ true
    → IsLoaded content l l.cached false
known-IsLoaded content l e h =
    let same = (beq_iff (normalize_token content) l.cached).0 h in
    let first = load_known content l e h in
    record {
      well_formed = subst IsToken same (IsToken-normalize_token content e);
      remembered = rw first refl;
      new_if_different = rw (beq_refl l.cached) refl;
      stable = rw first first;
    }

new-IsLoaded :
    (content : Bytes) (l : Loader)
    → is_nil (normalize_token content) ≡ false
    → beq (normalize_token content) l.cached ≡ false
    → IsLoaded content l (normalize_token content) true
new-IsLoaded content l e h =
    let t = normalize_token content in
    let first = load_new content l e h in
    record {
      well_formed = IsToken-normalize_token content e;
      remembered = rw first refl;
      new_if_different = rw h refl;
      stable = rw first (load_known content (record { cached = t }) e (beq_refl t));
    }

-- Every load that returns a token, whatever the file holds and the loader remembers, returns it
-- trimmed and with `oauth:` in front, remembers it, calls it new exactly if it differs from the
-- one remembered before, and does not call it new again when the same content is loaded once
-- more.
pub load-IsLoaded :
    (content : Bytes) (l : Loader) (t : Bytes) (new : Bool)
    → (load (some content) l).0 ≡ token t new
    → IsLoaded content l t new
load-IsLoaded content l t new h = elim (Bool-cases (is_nil (normalize_token content))) [
  | inl e ↦ absurd (empty-ne-token (rw (load_empty content l e) at h))
  | inr e ↦ elim (Bool-cases (beq (normalize_token content) l.cached)) [
    | inl s ↦
        let (p, q) = token-injective (rw (load_known content l e s) at h) in
        subst (λ u. IsLoaded content l u new) p
          (subst (λ b. IsLoaded content l l.cached b) q (known-IsLoaded content l e s))
    | inr s ↦
        let (p, q) = token-injective (rw (load_new content l e s) at h) in
        subst (λ u. IsLoaded content l u new) p
          (subst (λ b. IsLoaded content l (normalize_token content) b) q
            (new-IsLoaded content l e s))
  ]
]

normalize_token-is_nil :
    (s : Bytes) → is_nil (trim_space s) ≡ false → is_nil (normalize_token s) ≡ false
unfolding normalize_token
normalize_token-is_nil s e = elim (Bool-cases (has_prefix prefix (trim_space s))) [
  | inl p ↦ rw (e, p) e
  | inr p ↦ rw (e, p) refl
]

ne_is_nil : (s : Bytes) → s ≢ [] → is_nil s ≡ false
ne_is_nil [] n = absurd (n refl)
ne_is_nil (c ∷ s) n = refl

-- A token that is written with a line's end is read as it was.
normalize_token-append : (t : Bytes) → IsToken t → t ≢ [] → normalize_token (t ++ 10 ∷ []) ≡ t
unfolding normalize_token
normalize_token-append t h n =
    rw (trim_space-append t 10 h.trimmed n (unfold is_space in refl), ne_is_nil t n, h.prefixed)
      refl

load-eq_token :
    (content t : Bytes) (l : Loader)
    → normalize_token content ≡ t
    → is_nil t ≡ false
    → (new : Bool) × ((load (some content) l).0 ≡ token t new)
load-eq_token content t l same e = elim (Bool-cases (beq (normalize_token content) l.cached)) [
  | inl h ↦ (
    false,
    rw (load_known content l (ap is_nil same ∙ e) h)
        (ap (λ u. token u false) (sym ((beq_iff (normalize_token content) l.cached).0 h) ∙ same)),
  )
  | inr h ↦ (true, rw (load_new content l (ap is_nil same ∙ e) h) (ap (λ u. token u true) same))
]

-- What is written as a normalized token and a line's end, every loader reads as that token.
pub load-written :
    (s : Bytes) (l : Loader)
    → is_nil (trim_space s) ≡ false
    → (new : Bool) × ((load (some (normalize_token s ++ 10 ∷ [])) l).0
        ≡ token (normalize_token s) new)
load-written s l e =
    let e' = normalize_token-is_nil s e in
    load-eq_token _ (normalize_token s) l
      (normalize_token-append (normalize_token s) (IsToken-normalize_token s e')
        (is_nil_ne (normalize_token s) e'))
      e'
