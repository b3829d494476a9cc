-- ===== src/Message/Encode.antt =====
-- How encoding/json writes the badges of internal/core/model.go, by the tags of its structs: an empty
-- field is left out.
use gnasty_chat.Prelude.{List, [], ◌∷◌, ◌++◌, ℤ, pos, zero, if◌then◌else◌, is_nil, map}
use gnasty_chat.Text.{Bytes, codes}
use gnasty_chat.Dict.{Dict}
use gnasty_chat.Json.{
  Json, obj, Fields, end, field, marshal, marshal_text, marshal_int, write_struct, write_array,
}
use gnasty_chat.Message.{ChatBadge, ChatBadgeImage, BadgesRaw}

unfoldable pub text_entry : Bytes → Bytes → List (Bytes × Bytes)
text_entry key s = if is_nil s then [] else (key, marshal_text s) ∷ []

unfoldable pub int_entry : Bytes → ℤ → List (Bytes × Bytes)
int_entry key (pos zero) = []
int_entry key n = (key, marshal_int n) ∷ []

unfoldable pub marshal_image : ChatBadgeImage → Bytes
unfolding text_entry int_entry
marshal_image i = write_struct (
    text_entry (codes "id") i.id
    ++ (text_entry (codes "url") i.url
        ++ (int_entry (codes "width") i.width ++ int_entry (codes "height") i.height)))

unfoldable pub list_entry : {A : Type 0} → Bytes → (A → Bytes) → List A → List (Bytes × Bytes)
list_entry key write [] = []
list_entry key write (x ∷ xs) = (key, write_array (map write (x ∷ xs))) ∷ []

unfoldable pub marshal_badge : ChatBadge → Bytes
unfolding text_entry list_entry marshal_image
marshal_badge b = write_struct (
    text_entry (codes "platform") b.platform
    ++ (text_entry (codes "id") b.id
        ++ (text_entry (codes "version") b.version
            ++ list_entry (codes "images") marshal_image b.images)))

unfoldable pub to_fields : Dict Json → Fields
to_fields [] = end
to_fields ((k, v) ∷ m) = field k v (to_fields m)

raw_field : BadgesRaw → List (Bytes × Bytes)
raw_field [] = []
raw_field (e ∷ m) = (codes "raw", marshal (obj (to_fields (e ∷ m)))) ∷ []

-- The struct with the fields `badges` and `raw`, which both sources of messages write.
unfoldable pub marshal_payload : List ChatBadge → BadgesRaw → Bytes
unfolding list_entry raw_field marshal_badge
marshal_payload badges raw =
    write_struct (list_entry (codes "badges") marshal_badge badges ++ raw_field raw)
