-- ===== src/Config/Tests.antt =====
-- Instances of the theorems on the configuration.
use gnasty_chat.Prelude.{[], ◌∷◌, ◌≡◌, refl}
use gnasty_chat.Text.{Bytes, codes, trim_space}
use gnasty_chat.Dict.{Dict}
use gnasty_chat.Config.{load}
use gnasty_chat.Config.Facts.{IsValid, load-IsValid}
use gnasty_chat.Config.Summary.{summary, with_secrets, Secrets, SameShapes, summary_hides}

abbrev variables : Dict Bytes
variables =
    (codes "TWITCH_CHANNEL", codes "room") ∷ (codes "GNASTY_SINK_BATCH_SIZE", codes "-3") ∷ []

load-IsValid_example : IsValid (load variables)
load-IsValid_example = load-IsValid variables

abbrev secrets : Secrets
secrets = record { token = codes "ab"; client_id = []; client_secret = []; refresh_token = [] }

abbrev others : Secrets
others = record { token = codes "xy"; client_id = []; client_secret = []; refresh_token = [] }

secrets-SameShapes : SameShapes secrets others
unfolding trim_space
secrets-SameShapes = record {
  token = record { same_length = refl; same_blank = refl };
  client_id = record { same_length = refl; same_blank = refl };
  client_secret = record { same_length = refl; same_blank = refl };
  refresh_token = record { same_length = refl; same_blank = refl };
}

summary_hides_example :
    summary (with_secrets secrets (load [])) ≡ summary (with_secrets others (load []))
summary_hides_example = summary_hides (load []) secrets others secrets-SameShapes
