-- ===== src/TwitchBadges/Enriched.antt =====
-- internal/twitchbadges/resolver.go, Enrich: only images change.
use gnasty_chat.Prelude.{
  ℕ, true, List, [], ◌∷◌, ◌≡◌, ◌≢◌, ◌⊎◌, refl, arith, inl, inr, Bool-cases, Option-cases, is_nil,
  map,
}
use gnasty_chat.Text.{Bytes, codes, equal_fold, to_lower, trim_space}
use gnasty_chat.Dict.{lookup, get_or}
use gnasty_chat.Message.{ChatBadge}
use gnasty_chat.TwitchBadges.BadgeSets.{Sets, Versions}
use gnasty_chat.TwitchBadges.{
  Helix, Resolver, set_images, enrich_known, enrich_badge, enrich, lookup_badge_sets,
}

-- A badge as it was, but for images that are not none; a badge of another platform as it was.
pub record IsEnriched (b b' : ChatBadge) : Type 0 where
  pub same_platform : b'.platform ≡ b.platform
  pub same_id : b'.id ≡ b.id
  pub same_version : b'.version ≡ b.version
  pub images_kept : (b'.images ≡ b.images) ⊎ (b'.images ≢ [])
  pub of_twitch : (b' ≡ b) ⊎ (equal_fold b.platform (codes "twitch") ≡ true)

pub data AllEnriched : List ChatBadge → List ChatBadge → Type 0 where
  none_left : AllEnriched [] []
  one_more :
      {b b' : ChatBadge} {bs bs' : List ChatBadge}
      → IsEnriched b b'
      → AllEnriched bs bs'
      → AllEnriched (b ∷ bs) (b' ∷ bs')

same : (b : ChatBadge) → IsEnriched b b
same b = record {
  same_platform = refl;
  same_id = refl;
  same_version = refl;
  images_kept = inl refl;
  of_twitch = inl refl;
}

module _ (helix : Helix) (now : ℕ) where
  set_images-IsEnriched :
      (versions : Versions) (b : ChatBadge)
      → equal_fold b.platform (codes "twitch") ≡ true
      → IsEnriched b (set_images helix now versions b)
  unfolding set_images
  set_images-IsEnriched versions b h = elim (Bool-cases (is_nil (get_or b.version versions []))) [
    | inr e ↦ simp e (record {
      same_platform = refl;
      same_id = refl;
      same_version = refl;
      images_kept = inr (ground (arith, e));
      of_twitch = inr h;
    })
    | inl e ↦ elim (Bool-cases (is_nil (get_or [] versions []))) [
      | inr f ↦
          simp (e, f)
            (record {
              same_platform = refl;
              same_id = refl;
              same_version = refl;
              images_kept = inr (ground (arith, f));
              of_twitch = inr h;
            })
      | inl f ↦ simp (e, f) (same b)
    ]
  ]

  enrich_known-IsEnriched :
      (merged : Sets) (b : ChatBadge)
      → equal_fold b.platform (codes "twitch") ≡ true
      → IsEnriched b (enrich_known helix now merged b)
  unfolding enrich_known
  enrich_known-IsEnriched merged b h = elim (Option-cases (lookup b.id merged)) [
    | inl f ↦ rw (f, enrich_known) (same b)
    | inr (versions, f) ↦ rw (f, enrich_known) (set_images-IsEnriched versions b h)
  ]

  enrich_badge-IsEnriched :
      (merged : Sets) (b : ChatBadge) → IsEnriched b (enrich_badge helix now merged b)
  unfolding enrich_badge
  enrich_badge-IsEnriched merged b = elim (Bool-cases (equal_fold b.platform (codes "twitch"))) [
    | inr e ↦ simp e (same b)
    | inl e ↦ simp e (enrich_known-IsEnriched merged b e)
  ]

  all_same : (bs : List ChatBadge) → AllEnriched bs bs
  all_same [] = none_left
  all_same (b ∷ bs) = one_more (same b) (all_same bs)

  all_enriched :
      (merged : Sets) (bs : List ChatBadge)
      → AllEnriched bs (map (enrich_badge helix now merged) bs)
  all_enriched merged [] = none_left
  all_enriched merged (b ∷ bs) =
      one_more (enrich_badge-IsEnriched merged b) (all_enriched merged bs)

  -- Whatever is cached and answered, Enrich returns the same badges in the same order, with their
  -- platforms, ids and versions; only badges of Twitch change, and only by images that are not
  -- none.
  pub enrich-AllEnriched :
      (channel : Bytes) (badges : List ChatBadge) (r : Resolver)
      → AllEnriched badges (enrich helix now channel badges r).0
  unfolding enrich
  enrich-AllEnriched channel badges r =
      let merged = (lookup_badge_sets helix now (to_lower (trim_space channel)) r).0 in
      elim (Bool-cases (is_nil merged)) [
        | inl e ↦ rw e (all_same badges)
        | inr e ↦ rw e (all_enriched merged badges)
      ]
