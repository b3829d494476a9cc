-- ===== src/Ytlive/Emotes/Places.antt =====
-- The places of the emotes that internal/ytlive/client.go reports.
use gnasty_chat.Prelude.{
  ◌+◌, List, [], ◌∷◌, ◌++◌, ◌≡◌, refl, ap, sym, ◌∙◌, All, All-append, total-append, is_nil,
  Bool-cases, Option-cases, inl, inr, append_assoc, append-nil,
}
use gnasty_chat.Text.{Bytes, codes}
use gnasty_chat.Json.{null, bool, num, str, arr, obj, Items, nil, cons, Fields, get, as_obj, as_str}
use gnasty_chat.Ytlive.Emotes.{
  Emote, utf16_len, Reading, write_text, write_emote, read_emoji, read_emoji_run, read_run,
  read_runs, runs_text_and_emotes, emoji_shortcode, emoji_accessibility_label,
}

-- The emote has one place, and there the text holds its name: the units before it are those of the text
-- in front.
pub record IsPlaced (text : Bytes) (e : Emote) : Type 0 where
  pub front : Bytes
  pub back : Bytes
  pub found : text ≡ front ++ (e.name ++ back)
  pub place :
      e.locations ≡ record { start = utf16_len front; stop = utf16_len (front ++ e.name) } ∷ []

record IsCounted (r : Reading) : Type 0 where
  counted : r.offset ≡ utf16_len r.text
  placed : All (IsPlaced r.text) r.emotes

utf16_len-append : (s t : Bytes) → utf16_len (s ++ t) ≡ utf16_len s + utf16_len t
unfolding utf16_len
utf16_len-append s t = total-append _ s t

IsPlaced-append :
    (text more : Bytes) (es : List Emote)
    → All (IsPlaced text) es
    → All (IsPlaced (text ++ more)) es
IsPlaced-append text more [] h = tt
IsPlaced-append text more (e ∷ es) (p, h) = (
  record {
    front = p.front;
    back = p.back ++ more;
    found = rw p.found (
        append_assoc p.front (e.name ++ p.back) more
        ∙ ap (λ s. p.front ++ s) (append_assoc e.name p.back more));
    place = p.place;
  },
  IsPlaced-append text more es h,
)

write_text-IsCounted : (s : Bytes) (r : Reading) → IsCounted r → IsCounted (write_text s r)
unfolding write_text
write_text-IsCounted s r c = record {
  counted = rw (utf16_len-append, c.counted) refl;
  placed = IsPlaced-append r.text s r.emotes c.placed;
}

write_emote-IsCounted :
    (emoji : Fields) (name : Bytes) (r : Reading)
    → IsCounted r
    → IsCounted (write_emote emoji name r)
unfolding write_emote
write_emote-IsCounted emoji name r c = record {
  counted = rw (utf16_len-append, c.counted) refl;
  placed =
      All-append (IsPlaced (r.text ++ name)) r.emotes _
        (IsPlaced-append r.text name r.emotes c.placed)
        (
          record {
            front = r.text;
            back = [];
            found = ap (λ s. r.text ++ s) (sym (append-nil name));
            place = rw (utf16_len-append r.text name, c.counted) refl;
          },
          tt,
        );
}

read_emoji-IsCounted : (emoji : Fields) (r : Reading) → IsCounted r → IsCounted (read_emoji emoji r)
unfolding read_emoji
read_emoji-IsCounted emoji r c = elim (Bool-cases (is_nil (emoji_shortcode emoji))) [
  | inl e ↦ rw e (write_text-IsCounted (emoji_accessibility_label emoji) r c)
  | inr e ↦ rw e (write_emote-IsCounted emoji (emoji_shortcode emoji) r c)
]

read_emoji_run-IsCounted :
    (part : Fields) (r : Reading) → IsCounted r → IsCounted (read_emoji_run part r)
unfolding read_emoji_run
read_emoji_run-IsCounted part r c = elim (Option-cases (as_obj (get (codes "emoji") part))) [
  | inl n ↦ rw (n, read_emoji_run) c
  | inr (emoji, n) ↦ rw (n, read_emoji_run) (read_emoji-IsCounted emoji r c)
]

read_run-IsCounted : (part : Fields) (r : Reading) → IsCounted r → IsCounted (read_run part r)
unfolding read_run
read_run-IsCounted part r c = elim (Option-cases (as_str (get (codes "text") part))) [
  | inl n ↦ rw (n, read_run) (read_emoji_run-IsCounted part r c)
  | inr (s, e) ↦ rw (e, read_run) (write_text-IsCounted s r c)
]

read_runs-IsCounted : (runs : Items) (r : Reading) → IsCounted r → IsCounted (read_runs runs r)
unfolding read_runs
read_runs-IsCounted nil r c = c
read_runs-IsCounted (cons (obj part) js) r c =
    read_runs-IsCounted js (read_run part r) (read_run-IsCounted part r c)
read_runs-IsCounted (cons null js) r c = read_runs-IsCounted js r c
read_runs-IsCounted (cons (bool b) js) r c = read_runs-IsCounted js r c
read_runs-IsCounted (cons (num n) js) r c = read_runs-IsCounted js r c
read_runs-IsCounted (cons (str s) js) r c = read_runs-IsCounted js r c
read_runs-IsCounted (cons (arr xs) js) r c = read_runs-IsCounted js r c

-- Of whatever runs, every emote is placed: the text holds its name, and its one place begins
-- after the UTF-16 units of the text in front and ends after those of the name.
pub runs_text_and_emotes-IsPlaced :
    (runs : Items) → All (IsPlaced (runs_text_and_emotes runs).0) (runs_text_and_emotes runs).1
unfolding runs_text_and_emotes
runs_text_and_emotes-IsPlaced runs =
    (read_runs-IsCounted runs (record { text = []; offset = 0; emotes = [] })
      (record { counted = unfold utf16_len in refl; placed = tt })).placed
