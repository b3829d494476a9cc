-- ===== src/TwitchBadges/BadgeSets.antt =====
-- internal/twitchbadges/resolver.go: sets of badges by their id and version.
use gnasty_chat.Prelude.{
  ℕ, Bool, true, false, ◌&&◌, List, [], ◌∷◌, ◌++◌, leb, if◌then◌else◌, is_nil, pos,
}
use gnasty_chat.Text.{Bytes, codes, trim_space}
use gnasty_chat.Dict.{Dict, get_or, insert}
use gnasty_chat.Message.{ChatBadgeImage}

abbrev pub Versions : Type 0
Versions = Dict (List ChatBadgeImage)

abbrev pub Sets : Type 0
Sets = Dict Versions

pub record HelixBadgeItem : Type 0 where
  pub id : Bytes
  pub image_url_1x : Bytes
  pub image_url_2x : Bytes
  pub image_url_4x : Bytes

pub record HelixBadgeSet : Type 0 where
  pub set_id : Bytes
  pub versions : List HelixBadgeItem

unfoldable pub image_of : Bytes → Bytes → ℕ → Bytes → List ChatBadgeImage
image_of id url size suffix =
    if is_nil (trim_space url)
    then []
    else record { id = id ++ b'-' ∷ suffix; url = url; width = pos size; height = pos size } ∷ []

unfoldable pub build_images : HelixBadgeItem → List ChatBadgeImage
build_images item =
    image_of item.id item.image_url_1x 18 (codes "1x")
    ++ (image_of item.id item.image_url_2x 36 (codes "2x")
        ++ image_of item.id item.image_url_4x 72 (codes "4x"))

-- The entries that a list adds to a map, its first one first.
unfoldable pub add_versions : List HelixBadgeItem → Versions → Versions
add_versions [] versions = versions
add_versions (v ∷ vs) versions =
    add_versions vs (if is_nil v.id then versions else insert v.id (build_images v) versions)

unfoldable pub add_set : HelixBadgeSet → Sets → Sets
add_set set result =
    let versions = add_versions set.versions [] in
    if is_nil set.set_id
    then result
    else if is_nil versions
    then result
    else insert set.set_id versions result

unfoldable pub add_sets : List HelixBadgeSet → Sets → Sets
add_sets [] result = result
add_sets (set ∷ sets) result = add_sets sets (add_set set result)

unfoldable pub convert_badge_sets : List HelixBadgeSet → Sets
convert_badge_sets sets = add_sets sets []

unfoldable pub merge_versions : Versions → Versions → Versions
merge_versions [] dst = dst
merge_versions ((version, images) ∷ src) dst = merge_versions src (insert version images dst)

-- The sets of `src` into `dst`.
unfoldable pub merge_badge_sets : Sets → Sets → Sets
merge_badge_sets [] dst = dst
merge_badge_sets ((id, versions) ∷ src) dst =
    merge_badge_sets src (insert id (merge_versions versions (get_or id dst [])) dst)

unfoldable pub all_digits : Bytes → Bool
all_digits [] = true
all_digits (c ∷ s) = (leb b'0' c && leb c b'9') && all_digits s

unfoldable pub is_numeric_id : Bytes → Bool
is_numeric_id [] = false
is_numeric_id (c ∷ s) = all_digits (c ∷ s)
