-- ===== src/Ytlive/Resolver/Hosts.antt =====
-- internal/ytlive/resolver.go: the URL that is requested, and the URLs that are returned.
use gnasty_chat.Prelude.{
  false, ◌||◌, not, Option, none, some, [], ◌++◌, ◌≡◌, ◌∙◌, refl, sym, subst, arith, ◌⊎◌,
  Bool-cases, ap, inl, inr, Option-cases, is_nil,
}
use gnasty_chat.Text.{
  Bytes, codes, cut, has_prefix, trim_space, trim_left, trim_right, is_space, equal_fold,
}
use gnasty_chat.Text.Search.{cut_sound, cut-drop, cut-append-ne_none}
use gnasty_chat.Text.Trim.{trim_space_idem}
use gnasty_chat.Ytlive.Resolver.{
  canonical_watch_from_video_id, canonical_chat_from_video_id, canonical_watch_url, until_quote,
  chat_url_of, chat_url_at, extract_long_chat_url, extract_chat_url,
}
use gnasty_chat.Ytlive.Resolver.Urls.{
  Url, Packages, Normalized, not_normalized, normalized, youtube_host, normalize_short,
  normalize_watch, normalize_long, normalize_host, normalize_parsed, normalize_youtube_url,
  encode_v, youtube_url, with_scheme,
}

-- A URL of https at www.youtube.com
abbrev pub IsYoutube : Normalized → Type 0
IsYoutube (not_normalized e) = Unit
IsYoutube (normalized u) = (u.scheme ≡ codes "https") × (u.host ≡ youtube_host)

module _ (pk : Packages) where
  normalize_short-IsYoutube : (u : Url) → IsYoutube (normalize_short pk u)
  unfolding normalize_short youtube_url
  normalize_short-IsYoutube u = ground arith

  normalize_watch-IsYoutube : (u : Url) → IsYoutube (normalize_watch pk u)
  unfolding normalize_watch youtube_url
  normalize_watch-IsYoutube u = ground arith

  normalize_long-IsYoutube : (u : Url) → IsYoutube (normalize_long pk u)
  unfolding normalize_long youtube_url
  normalize_long-IsYoutube u = ground (arith, normalize_watch-IsYoutube u)

  normalize_parsed-IsYoutube : (o : Option Url) → IsYoutube (normalize_parsed pk o)
  unfolding normalize_parsed normalize_host
  normalize_parsed-IsYoutube none = tt
  normalize_parsed-IsYoutube (some u) =
      ground (arith, normalize_short-IsYoutube u, normalize_long-IsYoutube u)

  pub normalize_youtube_url-IsYoutube : (raw : Bytes) → IsYoutube (normalize_youtube_url pk raw)
  unfolding normalize_youtube_url
  normalize_youtube_url-IsYoutube raw =
      ground (arith, normalize_parsed-IsYoutube (pk.parse (with_scheme (trim_space raw))))

abbrev pub IsBehind : Bytes → Bytes → Type 0
IsBehind p s = (rest : Bytes) × (s ≡ p ++ rest)

-- No URL, or that of a chat.
abbrev pub IsChat : Bytes → Type 0
IsChat s = (s ≡ []) ⊎ IsBehind (codes "https://www.youtube.com/live_chat?") s

module _ (pk : Packages) where
  chat_url_at-IsChat : (after : Bytes) → IsChat (chat_url_at pk (codes "/live_chat?") after)
  unfolding chat_url_at chat_url_of until_quote trim_space trim_left trim_right is_space has_prefix
  chat_url_at-IsChat after = inr (trim_right is_space (until_quote after), refl)

  -- Where the longer text occurs, the shorter one does.
  cut_longer-none :
      (body : Bytes)
      → cut (codes "/live_chat?") body ≡ none
      → cut (codes "https://www.youtube.com/live_chat?") body ≡ none
  cut_longer-none body h =
      elim (Option-cases (cut (codes "https://www.youtube.com/live_chat?") body)) [
        | inl e ↦ e
        | inr ((before, after), e) ↦ absurd (
            cut-append-ne_none b'/' (codes "live_chat?") after (
              cut-drop _ (codes "https://www.youtube.com") _ (
                cut-drop _ before _ (
                  subst (λ s. cut (codes "/live_chat?") s ≡ none) (cut_sound _ body before after e)
                    h))))
      ]

  extract_long_chat_url-nil :
      (body : Bytes)
      → cut (codes "https://www.youtube.com/live_chat?") body ≡ none
      → extract_long_chat_url pk body ≡ []
  unfolding extract_long_chat_url
  extract_long_chat_url-nil body h = rw (h, extract_long_chat_url) refl

  extract_chat_url-none :
      (body : Bytes) → cut (codes "/live_chat?") body ≡ none → extract_chat_url pk body ≡ []
  unfolding extract_chat_url
  extract_chat_url-none body h =
      rw (h, extract_chat_url) (extract_long_chat_url-nil body (cut_longer-none body h))

  extract_chat_url-some :
      (body before after : Bytes)
      → cut (codes "/live_chat?") body ≡ some (before, after)
      → extract_chat_url pk body ≡ chat_url_at pk (codes "/live_chat?") after
  unfolding extract_chat_url
  extract_chat_url-some body before after h = rw (h, extract_chat_url) refl

  pub extract_chat_url-IsChat : (body : Bytes) → IsChat (extract_chat_url pk body)
  extract_chat_url-IsChat body = elim (Option-cases (cut (codes "/live_chat?") body)) [
    | inl e ↦ inl (extract_chat_url-none body e)
    | inr ((before, after), e) ↦
        subst IsChat (sym (extract_chat_url-some body before after e)) (chat_url_at-IsChat after)
  ]

-- The URL of a video, by its id, which is not blank.
abbrev pub IsWatch : Packages → Bytes → Bytes → Type 0
IsWatch pk id s =
    (s ≡ codes "https://www.youtube.com/watch?v=" ++ pk.escape id)
    × (is_nil (trim_space id) ≡ false)

module _ (pk : Packages) where
  pub canonical_watch_url-IsWatch :
      (u : Url)
      → (canonical_watch_url pk u ≡ [])
        ⊎ IsWatch pk (pk.query_v u.raw_query) (canonical_watch_url pk u)
  unfolding canonical_watch_url encode_v
  canonical_watch_url-IsWatch u =
      elim (Bool-cases (
        not (equal_fold u.path (codes "/watch")) || is_nil (trim_space (pk.query_v u.raw_query)))) [
          | inl e ↦ rw e (inl refl)
          | inr e ↦ rw e (inr (refl, ground (arith, e)))
        ]

  pub canonical_watch_from_video_id-IsWatch :
      (id : Bytes)
      → is_nil (trim_space id) ≡ false
      → IsWatch pk (trim_space id) (canonical_watch_from_video_id pk id)
  unfolding canonical_watch_from_video_id encode_v
  canonical_watch_from_video_id-IsWatch id h = rw h (refl, ap is_nil (trim_space_idem id) ∙ h)

  pub canonical_chat_from_video_id-IsBehind :
      (id : Bytes)
      → is_nil (trim_space id) ≡ false
      → IsBehind (codes "https://www.youtube.com/live_chat?") (canonical_chat_from_video_id pk id)
  unfolding canonical_chat_from_video_id encode_v
  canonical_chat_from_video_id-IsBehind id h = rw h (codes "v=" ++ pk.escape (trim_space id), refl)
