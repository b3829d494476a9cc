-- ===== src/Irc/Tags/Escapes.antt =====
-- The escapes of IRCv3 message tags, and that internal/twitchirc/client.go undoes them.
use gnasty_chat.Prelude.{
  ℕ, ◌≤◌, some, List, [], ◌∷◌, ◌++◌, ◌≡◌, ◌⊎◌, inl, inr, refl, sym, subst, ap, arith, All,
  All-append, length, ◌==◌, if◌then◌else◌, map,
}
use gnasty_chat.Text.{Bytes, join, cut_byte}
use gnasty_chat.Text.Search.{Lacks, cut_byte-append}
use gnasty_chat.Text.Split.{split-join}
use gnasty_chat.Dict.{Dict, insert}
use gnasty_chat.Irc.Tags.{unescape_irc, add_tag, add_tags, read_tags}

-- The table of the IRCv3 specification.
escape_byte : ℕ → Bytes
escape_byte c =
    if c == b';'
    then 92 ∷ b':' ∷ []
    else if c == 32
    then 92 ∷ b's' ∷ []
    else if c == 92
    then 92 ∷ 92 ∷ []
    else if c == 13
    then 92 ∷ b'r' ∷ []
    else if c == 10
    then 92 ∷ b'n' ∷ []
    else c ∷ []

unfoldable pub escape_irc : Bytes → Bytes
unfolding escape_byte
escape_irc [] = []
escape_irc (c ∷ s) = escape_byte c ++ escape_irc s

unescape_irc-byte : (c : ℕ) (s : Bytes) → unescape_irc (escape_byte c ++ s) ≡ c ∷ unescape_irc s
unfolding unescape_irc escape_byte
unescape_irc-byte c [] = ground arith
unescape_irc-byte c (d ∷ s) = ground arith

-- Every value is read back from its escaped form.
pub unescape_irc-escape_irc : (s : Bytes) → unescape_irc (escape_irc s) ≡ s
unfolding escape_irc
unescape_irc-escape_irc [] = unfold unescape_irc in refl
unescape_irc-escape_irc (c ∷ s) =
    rw (unescape_irc-byte c (escape_irc s)) (ap (◌∷◌ c) (unescape_irc-escape_irc s))

-- Unescaping never makes a value longer.
pub length-unescape_irc : (s : Bytes) → length (unescape_irc s) ≤ length s
unfolding unescape_irc
length-unescape_irc [] = omega arith
length-unescape_irc (c ∷ []) = omega arith
length-unescape_irc (c ∷ d ∷ s) = ground (arith, length-unescape_irc (d ∷ s), length-unescape_irc s)

escape_byte-Lacks : (b c : ℕ) → (b ≡ b';') ⊎ (b ≡ 32) → Lacks b (escape_byte c)
unfolding escape_byte
escape_byte-Lacks b c h = ground arith

-- An escaped value holds no semicolon and no space.
pub escape_irc-Lacks : (b : ℕ) (s : Bytes) → (b ≡ b';') ⊎ (b ≡ 32) → Lacks b (escape_irc s)
unfolding escape_irc
escape_irc-Lacks b [] h = tt
escape_irc-Lacks b (c ∷ s) h =
    All-append _ (escape_byte c) (escape_irc s) (escape_byte-Lacks b c h) (escape_irc-Lacks b s h)

pub write_tag : Bytes × Bytes → Bytes
write_tag (k, v) = k ++ b'=' ∷ escape_irc v

pub write_tags : List (Bytes × Bytes) → Bytes
unfolding write_tag
write_tags kvs = join (b';' ∷ []) (map write_tag kvs)

insert_all : List (Bytes × Bytes) → Dict Bytes → Dict Bytes
insert_all [] m = m
insert_all ((k, v) ∷ kvs) m = insert_all kvs (insert k v m)

-- The map that holds the tags, a later one in place of an earlier one with its key.
pub tag_map : List (Bytes × Bytes) → Dict Bytes
unfolding insert_all
tag_map kvs = insert_all kvs []

-- Keys that can be written: without `=`, `;` and a space.
abbrev pub IsKey : Bytes → Type 0
IsKey k = Lacks b'=' k × Lacks b';' k × Lacks 32 k

abbrev pub KeysOf : List (Bytes × Bytes) → Type 0
KeysOf = All λ kv. IsKey kv.0

add_tag-cons :
    (c : ℕ) (s k v : Bytes) (m : Dict Bytes)
    → c ∷ s ≡ k ++ b'=' ∷ escape_irc v
    → Lacks b'=' k
    → add_tag (c ∷ s) m ≡ insert k v m
unfolding add_tag
add_tag-cons c s k v m e h =
    let found : cut_byte b'=' (c ∷ s) ≡ some (k, escape_irc v) =
      subst (λ x. cut_byte b'=' x ≡ some (k, escape_irc v)) (sym e)
        (cut_byte-append b'=' k (escape_irc v) h) in
    rw (found, add_tag) (rw (unescape_irc-escape_irc v))

add_tag-write_tag :
    (k v : Bytes) (m : Dict Bytes) → Lacks b'=' k → add_tag (write_tag (k, v)) m ≡ insert k v m
unfolding write_tag
add_tag-write_tag [] v m h = add_tag-cons b'=' (escape_irc v) [] v m refl h
add_tag-write_tag (c ∷ k) v m h = add_tag-cons c (k ++ b'=' ∷ escape_irc v) (c ∷ k) v m refl h

add_tags-write_tag :
    (kvs : List (Bytes × Bytes)) (m : Dict Bytes)
    → KeysOf kvs
    → add_tags (map write_tag kvs) m ≡ insert_all kvs m
unfolding add_tags insert_all
add_tags-write_tag [] m h = refl
add_tags-write_tag ((k, v) ∷ kvs) m (hk, h) =
    rw (add_tag-write_tag k v m hk.0, add_tags) (add_tags-write_tag kvs (insert k v m) h)

module _ (b : ℕ) (h : (b ≡ b';') ⊎ (b ≡ 32)) where
  write_tag-Lacks : (k v : Bytes) → Lacks b k → Lacks b (write_tag (k, v))
  unfolding write_tag
  write_tag-Lacks k v hk =
      All-append _ k (b'=' ∷ escape_irc v) hk (omega arith, escape_irc-Lacks b v h)

map-write_tag-Lacks :
    (kvs : List (Bytes × Bytes)) → KeysOf kvs → All (Lacks b';') (map write_tag kvs)
map-write_tag-Lacks [] h = tt
map-write_tag-Lacks ((k, v) ∷ kvs) (hk, h) =
    (write_tag-Lacks b';' (inl refl) k v hk.1, map-write_tag-Lacks kvs h)

-- The tags of a line are read back as they were written, a later one in place of an earlier one
-- with its key, if the keys can be written.
pub read_tags-write_tags :
    (kv : Bytes × Bytes) (kvs : List (Bytes × Bytes))
    → KeysOf (kv ∷ kvs)
    → read_tags (write_tags (kv ∷ kvs)) ≡ tag_map (kv ∷ kvs)
unfolding read_tags write_tags tag_map
read_tags-write_tags kv kvs h =
    rw (split-join b';' (write_tag kv) (map write_tag kvs) (map-write_tag-Lacks (kv ∷ kvs) h))
      (add_tags-write_tag (kv ∷ kvs) [] h)

write_tags-Lacks_space :
    (kvs : List (Bytes × Bytes)) → KeysOf kvs → Lacks 32 (join (b';' ∷ []) (map write_tag kvs))
unfolding join
write_tags-Lacks_space [] h = tt
write_tags-Lacks_space ((k, v) ∷ []) (hk, h) = write_tag-Lacks 32 (inr refl) k v hk.2
write_tags-Lacks_space ((k, v) ∷ kv ∷ kvs) (hk, h) =
    All-append _ (write_tag (k, v)) (b';' ∷ join (b';' ∷ []) (map write_tag (kv ∷ kvs)))
      (write_tag-Lacks 32 (inr refl) k v hk.2) (omega arith, write_tags-Lacks_space (kv ∷ kvs) h)

-- Written tags hold no space.
pub write_tags-Lacks : (kvs : List (Bytes × Bytes)) → KeysOf kvs → Lacks 32 (write_tags kvs)
unfolding write_tags
write_tags-Lacks kvs h = write_tags-Lacks_space kvs h
