-- ===== src/TwitchBadges/Tests.antt =====
-- A resolver whose first lookup fetches the sets, and instances of the theorems.
use gnasty_chat.Dict.{lookup}
use gnasty_chat.TwitchBadges.{fresh, Helix, Resolver, load_sets, cached_badge_sets, enrich}
use gnasty_chat.Prelude.{none, some, [], ◌∷◌, ◌≡◌, refl, arith, ℤ}
use gnasty_chat.Text.{codes}
use gnasty_chat.Message.{ChatBadge}
use gnasty_chat.TwitchBadges.BadgeSets.{HelixBadgeSet, convert_badge_sets}
use gnasty_chat.TwitchBadges.Enriched.{AllEnriched, enrich-AllEnriched}
use gnasty_chat.TwitchBadges.Cached.{load_sets-stored}

abbrev moderator : HelixBadgeSet
moderator = record {
  set_id = codes "moderator";
  versions =
      record {
        id = codes "1";
        image_url_1x = codes "https://x/1";
        image_url_2x = [];
        image_url_4x = [];
      }
      ∷ [];
}

abbrev helix : Helix
helix = record {
  request_token = some (codes "t", ℤ.pos 60);
  request_sets = λ token id. some (moderator ∷ []);
  request_user = λ token channel. some (codes "42");
}

-- Answers that are all errors.
abbrev offline : Helix
offline = record {
  request_token = none;
  request_sets = λ token id. none;
  request_user = λ token channel. none;
}

abbrev resolver : Resolver
resolver = record {
  client_id = codes "c";
  client_secret = codes "s";
  ttl = ℤ.pos 0;
  token = [];
  token_expires_at = 0;
  badge_sets = [];
  users = [];
}

abbrev badge : ChatBadge
badge = record {
  platform = codes "twitch";
  id = codes "moderator";
  version = codes "1";
  images = [];
}

enrich-AllEnriched_example :
    AllEnriched (badge ∷ []) (enrich helix 5 (codes "chan") (badge ∷ []) resolver).0
enrich-AllEnriched_example = enrich-AllEnriched helix 5 (codes "chan") (badge ∷ []) resolver

nothing_cached : cached_badge_sets 5 (codes "42") resolver ≡ none
unfolding cached_badge_sets fresh lookup
nothing_cached = refl

load_sets-stored_example :
    ((load_sets helix 5 (codes "t") (codes "42") (codes "42") resolver).0
      ≡ some (convert_badge_sets (moderator ∷ [])))
    × (load_sets offline 21_600_000_000_000
          (codes "u")
          (codes "42")
          (codes "42")
          (load_sets helix 5 (codes "t") (codes "42") (codes "42") resolver).1
        ≡ load_sets helix 5 (codes "t") (codes "42") (codes "42") resolver)
load_sets-stored_example =
    load_sets-stored helix 5 (codes "t") (codes "42") (codes "42") resolver offline
      21_600_000_000_000 (codes "u") (codes "42") (moderator ∷ []) nothing_cached refl (omega arith)
