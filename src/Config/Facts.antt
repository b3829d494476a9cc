-- ===== src/Config/Facts.antt =====
-- What holds of every configuration that `Load` of internal/config/config.go returns.
use gnasty_chat.Prelude.{
  true, false, [], ◌∷◌, ◌≡◌, ◌≢◌, ◌⊎◌, inl, inr, refl, arith, is_nil, not, ℤ, lez,
}
use gnasty_chat.Text.{Bytes, codes}
use gnasty_chat.Dict.{Dict}
use gnasty_chat.Config.{Config, load, load_twitch, load_youtube, read_poll, or_text, batch}
use gnasty_chat.Config.Read.{env, read_int, read_natural}
use gnasty_chat.Config.Lists.{split_list, IsDeduped, dedupe-IsDeduped}

abbrev AtLeast : ℤ → ℤ → Type 0
AtLeast n m = lez n m ≡ true

read_int-AtLeast :
    (vars : Dict Bytes) (name : Bytes) (def : ℤ) (n : ℤ)
    → (n ≡ ℤ.pos 0) ⊎ (n ≡ ℤ.pos 1)
    → AtLeast n def
    → AtLeast n (read_int vars name def)
unfolding read_int
read_int-AtLeast vars name def n h d = ground arith

read_poll-AtLeast :
    (vars : Dict Bytes) (name : Bytes) (def : ℤ)
    → AtLeast (ℤ.pos 0) def
    → AtLeast (ℤ.pos 0) (read_poll vars name def)
unfolding read_poll read_natural
read_poll-AtLeast vars name def d = ground arith

or_text-ne-nil : (s t : Bytes) → t ≢ [] → or_text s t ≢ []
unfolding or_text
or_text-ne-nil [] t h = h
or_text-ne-nil (c ∷ s) t h = cc

batch-AtLeast : (c : Config) → AtLeast (ℤ.pos 1) c.batch_size → batch c ≡ c.batch_size
unfolding batch
batch-AtLeast c h = ground arith

pub record IsValid (c : Config) : Type 0 where
  pub sinks : IsDeduped c.sinks
  pub channels : IsDeduped c.twitch.channels
  pub has_path : c.sqlite_path ≢ []
  pub batches : AtLeast (ℤ.pos 1) c.batch_size
  pub flushes : AtLeast (ℤ.pos 0) c.flush_max_ms
  pub retries : AtLeast (ℤ.pos 1) c.youtube.retry_seconds
  pub timeout : AtLeast (ℤ.pos 0) c.youtube.poll_timeout_secs
  pub polls : AtLeast (ℤ.pos 0) c.youtube.poll_interval_ms
  pub joins : is_nil c.twitch.channels ≡ false → c.twitch.enabled ≡ true
  pub watches : c.youtube.enabled ≡ not (is_nil c.youtube.live_url)
  pub same_batch : batch c ≡ c.batch_size

-- Whatever the environment holds, the configuration that is loaded has distinct sinks and
-- channels, a path for the database, a batch of one message or more, which `Batch` returns as it
-- is, and no negative time; Twitch is enabled whenever a channel is given, and YouTube exactly
-- when a URL is.
pub load-IsValid : (vars : Dict Bytes) → IsValid (load vars)
unfolding load load_twitch load_youtube
load-IsValid vars = record {
  sinks = unfold split_list in dedupe-IsDeduped _;
  channels = dedupe-IsDeduped _;
  has_path = or_text-ne-nil (env vars (codes "GNASTY_SINK_SQLITE_PATH")) (codes "chat.db") cc;
  batches = read_int-AtLeast vars _ (ℤ.pos 1) (ℤ.pos 1) (inr refl) refl;
  flushes = read_int-AtLeast vars _ (ℤ.pos 0) (ℤ.pos 0) (inl refl) refl;
  retries = read_int-AtLeast vars _ (ℤ.pos 30) (ℤ.pos 1) (inr refl) refl;
  timeout = read_poll-AtLeast vars _ (ℤ.pos 15) refl;
  polls = read_poll-AtLeast vars _ (ℤ.pos 10_000) refl;
  joins = λ h. ground (arith, h);
  watches = refl;
  same_batch = batch-AtLeast _ (read_int-AtLeast vars _ (ℤ.pos 1) (ℤ.pos 1) (inr refl) refl);
}
