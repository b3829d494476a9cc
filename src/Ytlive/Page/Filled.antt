-- ===== src/Ytlive/Page/Filled.antt =====
-- internal/ytlive/client.go, bootstrap: a success has all that a poll needs.
use gnasty_chat.Prelude.{
  false, ◌||◌, Option, [], ◌∷◌, ◌≡◌, ◌≢◌, arith, inl, inr, Bool-cases, Option-cases, is_nil, take,
  ◌==◌,
}
use gnasty_chat.Text.{Bytes, codes}
use gnasty_chat.Json.{Fields}
use gnasty_chat.Ytlive.Page.{
  Answer, unanswered, answered, Boot, boot_failed, booted, boot_with, continuation_of,
  extract_string, first_object, markers, read_data, read_page, bootstrap, page_limit,
}

abbrev pub AllFilled : Boot → Type 0
AllFilled (boot_failed why) = Unit
AllFilled (booted key version continuation) = (key ≢ []) × (version ≢ []) × (continuation ≢ [])

module _ (key version : Bytes) (k : key ≢ []) (v : version ≢ []) where
  boot_with-AllFilled : (continuation : Bytes) → AllFilled (boot_with key version continuation)
  unfolding boot_with
  boot_with-AllFilled [] = tt
  boot_with-AllFilled (c ∷ s) = (k, v, ground arith)

  read_data-AllFilled :
      (unmarshal : Bytes → Option Fields) (text : Bytes)
      → AllFilled (read_data unmarshal key version text)
  unfolding read_data
  read_data-AllFilled unmarshal text = elim (Option-cases (unmarshal text)) [
    | inl e ↦ rw (e, read_data) tt
    | inr (data_, e) ↦ rw (e, read_data) (boot_with-AllFilled (continuation_of data_))
  ]

is_nil-false : (s : Bytes) → is_nil s ≡ false → s ≢ []
is_nil-false [] h = ground (arith, h)
is_nil-false (c ∷ s) h = ground arith

module _ (unmarshal : Bytes → Option Fields) where
  abbrev key_of : Bytes → Bytes
  key_of text = extract_string text (codes "\"INNERTUBE_API_KEY\":\"")

  abbrev version_of : Bytes → Bytes
  version_of text = extract_string text (codes "\"INNERTUBE_CLIENT_VERSION\":\"")

  read_page-AllFilled : (text : Bytes) → AllFilled (read_page unmarshal text)
  unfolding read_page
  read_page-AllFilled text = elim (Bool-cases (is_nil (key_of text) || is_nil (version_of text))) [
    | inl e ↦ rw e tt
    | inr e ↦ elim (Bool-cases (is_nil (first_object text markers))) [
      | inl f ↦ rw (e, f) tt
      | inr f ↦
          rw (e, f)
            (read_data-AllFilled (key_of text) (version_of text)
              (is_nil-false (key_of text) (ground (arith, e)))
              (is_nil-false (version_of text) (ground (arith, e))) unmarshal
              (first_object text markers))
    ]
  ]

  pub bootstrap-AllFilled : (answer : Answer) → AllFilled (bootstrap unmarshal answer)
  unfolding bootstrap
  bootstrap-AllFilled unanswered = tt
  bootstrap-AllFilled (answered status body) = elim (Bool-cases (status == 200)) [
    | inl e ↦ rw e (read_page-AllFilled (take page_limit body))
    | inr e ↦ rw e tt
  ]
