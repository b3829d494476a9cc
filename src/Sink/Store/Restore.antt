-- ===== src/Sink/Store/Restore.antt =====
-- internal/sink/sqlite.go: a message that is listed and written again.
use gnasty_chat.Prelude.{
  true, false, Option, none, some, List, [], ◌∷◌, ◌++◌, ◌≡◌, ◌≢◌, refl, sym, ◌∙◌, arith, inl, inr,
  Bool-cases, is_nil, ℤ, pos, negsuc,
}
use gnasty_chat.Text.{Bytes, codes, trim_space, is_space}
use gnasty_chat.Text.Trim.{
  IsTrimmed, EndsClean-append, trim_space-IsTrimmed, trim_space-eq_self, trim_space_idem,
}
use gnasty_chat.Text.Decimal.{itoa-ne-nil}
use gnasty_chat.Json.{
  Json, null, bool, num, str, arr, obj, marshal, marshal_int, marshal_text, write_struct,
}
use gnasty_chat.Message.{ChatMessage, ChatBadge, BadgesRaw}
use gnasty_chat.Message.Encode.{marshal_payload}
use gnasty_chat.Sink.Store.Badges.{payload_text, encode_badges_json, Codec}
use gnasty_chat.Sink.Store.{
  json_text, is_zero, ts_ms, message_id, id_arg, row_of, text_or_empty, message_of_row,
}

marshal-ne-nil : (v : Json) → marshal v ≢ []
unfolding marshal marshal_int marshal_text
marshal-ne-nil null = ground arith
marshal-ne-nil (bool true) = ground arith
marshal-ne-nil (bool false) = ground arith
marshal-ne-nil (num (pos n)) = itoa-ne-nil n
marshal-ne-nil (num (negsuc n)) = ground arith
marshal-ne-nil (str s) = ground arith
marshal-ne-nil (arr xs) = ground arith
marshal-ne-nil (obj m) = ground arith

json_text-filled : (s d : Bytes) → s ≢ [] → json_text s none d ≡ s
unfolding json_text
json_text-filled [] d h = absurd (h refl)
json_text-filled (c ∷ s) d h = refl

json_text-ne-nil : (s : Bytes) (v : Option Json) (d : Bytes) → d ≢ [] → json_text s v d ≢ []
unfolding json_text
json_text-ne-nil [] none d h = h
json_text-ne-nil [] (some v) d h = marshal-ne-nil v
json_text-ne-nil (c ∷ s) v d h = ground arith

json_text-nil : (s : Bytes) → json_text s none [] ≡ s
unfolding json_text
json_text-nil [] = refl
json_text-nil (c ∷ s) = refl

text_or_empty-id_arg : (s : Bytes) → text_or_empty (id_arg s) ≡ s
unfolding text_or_empty id_arg
text_or_empty-id_arg [] = refl
text_or_empty-id_arg (c ∷ s) = refl

braced-IsTrimmed : (s : Bytes) → IsTrimmed (b'{' ∷ (s ++ b'}' ∷ []))
unfolding is_space
braced-IsTrimmed s = record {
  starts = refl;
  ends = EndsClean-append (b'{' ∷ s) (b'}' ∷ []) (ground arith) refl;
}

payload_text-IsTrimmed :
    (badges : List ChatBadge) (raw : BadgesRaw) → IsTrimmed (payload_text badges raw)
unfolding payload_text marshal_payload write_struct is_space
payload_text-IsTrimmed [] [] = record { starts = refl; ends = refl }
payload_text-IsTrimmed [] (e ∷ raw) = braced-IsTrimmed _
payload_text-IsTrimmed (b ∷ badges) raw = braced-IsTrimmed _

payload_text-ne-nil : (badges : List ChatBadge) (raw : BadgesRaw) → payload_text badges raw ≢ []
unfolding payload_text marshal_payload write_struct
payload_text-ne-nil [] [] = ground arith
payload_text-ne-nil [] (e ∷ raw) = ground arith
payload_text-ne-nil (b ∷ badges) raw = ground arith

is_nil-false : (s : Bytes) → s ≢ [] → is_nil s ≡ false
is_nil-false [] h = absurd (h refl)
is_nil-false (c ∷ s) h = refl

encoded : (msg : ChatMessage) → IsTrimmed (encode_badges_json msg) × (encode_badges_json msg ≢ [])
unfolding encode_badges_json
encoded msg = elim (Bool-cases (is_nil (trim_space msg.badges_json))) [
  | inl e ↦ rw e (
    payload_text-IsTrimmed msg.badges msg.badges_raw,
    payload_text-ne-nil msg.badges msg.badges_raw,
  )
  | inr e ↦ rw e (trim_space-IsTrimmed msg.badges_json, ground (arith, e))
]

encode_again :
    (msg : ChatMessage)
    → IsTrimmed msg.badges_json
    → msg.badges_json ≢ []
    → encode_badges_json msg ≡ msg.badges_json
unfolding encode_badges_json
encode_again msg t h =
    simp (trim_space-eq_self msg.badges_json t, is_nil-false msg.badges_json h) refl

message_id-trimmed : (msg : ChatMessage) → trim_space (message_id msg) ≡ message_id msg
unfolding message_id
message_id-trimmed msg = ground (arith, trim_space_idem msg.id, trim_space_idem msg.platform_msg_id)

message_id_again :
    (msg : ChatMessage)
    → trim_space msg.platform_msg_id ≡ msg.platform_msg_id
    → msg.platform_msg_id ≢ []
    → message_id msg ≡ msg.platform_msg_id
unfolding message_id
message_id_again msg e h = simp (e, is_nil-false msg.platform_msg_id h) refl

module _ (codec : Codec) (row_id now later : ℤ) (msg : ChatMessage) where
  listed : ChatMessage
  listed = message_of_row codec row_id (row_of now msg)

  message_id-listed : message_id msg ≢ [] → message_id listed ≡ message_id msg
  unfolding listed message_of_row row_of
  message_id-listed h =
      let e = text_or_empty-id_arg (message_id msg) in
      message_id_again listed (simp (e, message_id-trimmed msg) refl) (λ f. h (sym e ∙ f)) ∙ e

  ts_ms-listed : is_zero (ts_ms now msg) ≡ false → ts_ms later listed ≡ ts_ms now msg
  unfolding listed message_of_row row_of ts_ms
  ts_ms-listed z = rw (ts_ms, z) refl

  -- A message that was written, is listed and is written again gives the same row, if it has an
  -- id and its time is not zero.
  pub row_of-message_of_row :
      message_id msg ≢ []
      → is_zero (ts_ms now msg) ≡ false
      → row_of later (message_of_row codec row_id (row_of now msg)) ≡ row_of now msg
  unfolding row_of message_of_row listed
  row_of-message_of_row h z i = record {
    platform = trim_space_idem msg.platform i;
    platform_msg_id = id_arg (message_id-listed h i);
    ts = ts_ms-listed z i;
    username = trim_space_idem msg.username i;
    text = msg.text;
    emotes_json =
        json_text-filled (json_text msg.emotes_json msg.emotes (codes "[]")) (codes "[]")
          (json_text-ne-nil msg.emotes_json msg.emotes (codes "[]") (ground arith)) i;
    raw_json = json_text-nil (json_text msg.raw_json msg.raw []) i;
    badges_json = encode_again listed (encoded msg).0 (encoded msg).1 i;
    colour = msg.colour;
  }
