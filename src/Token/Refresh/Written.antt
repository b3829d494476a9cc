-- ===== src/Token/Refresh/Written.antt =====
-- internal/twitch/oauth.go: what Refresh leaves behind.
use gnasty_chat.Prelude.{
  ℕ, Bool, true, false, ◌||◌, Option, none, some, [], ◌∷◌, ◌++◌, ◌==◌, ◌≡◌, refl, inl, inr,
  Bool-cases, is_nil, ℤ, take, ap, ◌∙◌,
}
use gnasty_chat.Text.{Bytes, trim_space}
use gnasty_chat.Text.Trim.{trim_space_idem}
use gnasty_chat.Token.{normalize_token, Loader, load, token}
use gnasty_chat.Token.Loads.{load-written}
use gnasty_chat.Token.Refresh.{
  Manager, Response, Reply, no_reply, no_body, replied, Fault, no_fault, at_open, at_chmod, at_sync,
  at_write, undecoded, not_written, failed, refreshed, Outcome, write_open, write_token_file,
  after_write, keep, on_response, on_reply, refresh, max_reply, expires_of,
}

-- A token that is returned is in the file, for every loader, and its lifetime is remembered. A failure
-- changes nothing, but for the file if it could not be written.
abbrev pub IsRefreshed : Manager → Option Bytes → Outcome → Type 0
IsRefreshed m file (refreshed t expires, m', file') =
    (m' ≡ record m { last_expires = expires })
    × ((l : Loader) → (new : Bool) × ((load file' l).0 ≡ token (normalize_token t) new))
IsRefreshed m file (failed not_written, m', file') = m' ≡ m
IsRefreshed m file (failed e, m', file') = (m' ≡ m) × (file' ≡ file)

-- The file holds the token if it was written.
abbrev IsFiled : Bytes → Bool × Option Bytes → Type 0
IsFiled t (true, file) = file ≡ some (t ++ 10 ∷ [])
IsFiled t (false, file) = Unit

write_open-IsFiled :
    (t : Bytes) (fault : Fault) (file : Option Bytes) → IsFiled t (write_open t fault file)
unfolding write_open
write_open-IsFiled t no_fault file = refl
write_open-IsFiled t at_open file = tt
write_open-IsFiled t at_chmod file = tt
write_open-IsFiled t at_sync file = tt
write_open-IsFiled t (at_write part) file = tt

write_token_file-IsFiled :
    (path t : Bytes) (fault : Fault) (file : Option Bytes)
    → IsFiled t (write_token_file path t fault file)
unfolding write_token_file
write_token_file-IsFiled path t fault file = elim (Bool-cases (is_nil (trim_space path))) [
  | inl e ↦ rw e tt
  | inr e ↦ rw e (write_open-IsFiled t fault file)
]

after_write-IsRefreshed :
    (t : Bytes) (expires : ℤ) (m : Manager) (file : Option Bytes) (w : Bool × Option Bytes)
    → is_nil (trim_space t) ≡ false
    → IsFiled (normalize_token t) w
    → IsRefreshed m file (after_write t expires m w)
unfolding after_write
after_write-IsRefreshed t expires m file (false, file') e h = refl
after_write-IsRefreshed t expires m file (true, file') e h = (refl, λ l. rw h (load-written t l e))

keep-IsRefreshed :
    (fault : Fault) (raw : Bytes) (expires : ℤ) (m : Manager) (file : Option Bytes)
    → IsRefreshed m file (keep fault (trim_space raw) expires m file)
unfolding keep
keep-IsRefreshed fault raw expires m file = elim (Bool-cases (is_nil (trim_space raw))) [
  | inl e ↦ rw e (refl, refl)
  | inr e ↦ rw e (
      after_write-IsRefreshed (trim_space raw) expires m file _
        (ap is_nil (trim_space_idem raw) ∙ e)
        (write_token_file-IsFiled (trim_space m.token_file) (normalize_token (trim_space raw)) fault
          file))
]

on_response-IsRefreshed :
    (fault : Fault) (status : ℕ) (r : Response) (m : Manager) (file : Option Bytes)
    → IsRefreshed m file (on_response fault status r m file)
unfolding on_response
on_response-IsRefreshed fault status r m file = elim (Bool-cases (status == 200)) [
  | inl e ↦ rw e (keep-IsRefreshed fault r.access_token (expires_of r.expires_in) m file)
  | inr e ↦ rw e (refl, refl)
]

module _ (decode : Bytes → Option Response) where
  on_reply-IsRefreshed :
      (fault : Fault) (reply : Reply) (m : Manager) (file : Option Bytes)
      → IsRefreshed m file (on_reply decode fault reply m file)
  unfolding on_reply
  on_reply-IsRefreshed fault no_reply m file = (refl, refl)
  on_reply-IsRefreshed fault no_body m file = (refl, refl)
  on_reply-IsRefreshed fault (replied status body) m file = decoded (decode (take max_reply body))
    where
      decoded :
          (o : Option Response)
          → IsRefreshed m file (elim o [
            | none ↦ (failed undecoded, m, file)
            | some r ↦ on_response fault status r m file
          ])
      decoded none = (refl, refl)
      decoded (some r) = on_response-IsRefreshed fault status r m file

  -- If `Refresh` returns a token, every loader reads it, normalized, from the file, and of the
  -- manager only the lifetime changes, to the one returned; if it fails, the manager is
  -- unchanged, and so is the file, unless it is the writing that failed.
  pub refresh-IsRefreshed :
      (ask : Bytes → Bytes → Bytes → Reply) (fault : Fault) (m : Manager) (file : Option Bytes)
      → IsRefreshed m file (refresh decode ask fault m file)
  unfolding refresh
  refresh-IsRefreshed ask fault m file =
      elim (Bool-cases (
        is_nil (trim_space m.client_id)
        || (is_nil (trim_space m.client_secret) || is_nil (trim_space m.refresh_token)))) [
          | inl e ↦ rw e (refl, refl)
          | inr e ↦ elim (Bool-cases (is_nil (trim_space m.token_file))) [
            | inl f ↦ rw (e, f) (refl, refl)
            | inr f ↦ rw (e, f) (on_reply-IsRefreshed fault _ m file)
          ]
        ]
