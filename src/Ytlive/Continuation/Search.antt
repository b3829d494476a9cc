-- ===== src/Ytlive/Continuation/Search.antt =====
-- internal/ytlive/client.go, findInitialContinuation: the search ends, and what it finds.
use gnasty_chat.Prelude.{
  ℕ, zero, suc, ◌≤◌, Bool, false, ◌||◌, some, List, [], ◌∷◌, ◌++◌, ◌≡◌, ◌≢◌, refl, sym, ◌∙◌, subst,
  arith, total, total-append, All, All-split, All-Memᴰ, List-cases, inl, inr, ◌⊎◌,
}
use mathlib.Core.List.{Memᴰ}
use mathlib.Core.List.Memᴰ
use gnasty_chat.Text.{Bytes}
use gnasty_chat.Json.{Json, arr, obj, Items, nil, cons, Fields, end, field}
use gnasty_chat.Ytlive.Continuation.{
  QueueItem, children, children_of, field_children, item_children, offer, search, size, size_items,
  size_fields, find_initial_continuation, map_has_live_chat_key,
}

-- The values that lie below an item of the queue, itself included.
pub data Reaches : QueueItem → QueueItem → Type 0 where
  here : {i : QueueItem} → Reaches i i
  below : {i j k : QueueItem} → Memᴰ k (children i) → Reaches k j → Reaches i j

abbrev weight : List QueueItem → ℕ
weight = total λ i. size i.value

weight-field_children : (live : Bool) (m : Fields) → weight (field_children live m) ≡ size_fields m
unfolding field_children size_fields
weight-field_children live end = refl
weight-field_children live (field k v m) = omega (arith, weight-field_children live m)

weight-item_children : (live : Bool) (xs : Items) → weight (item_children live xs) ≡ size_items xs
unfolding item_children size_items
weight-item_children live nil = refl
weight-item_children live (cons x xs) = omega (arith, weight-item_children live xs)

weight-children_of : (v : Json) (live : Bool) → suc (weight (children_of v live)) ≡ size v
unfolding children_of size
weight-children_of (obj m) live =
    omega (arith, weight-field_children (live || map_has_live_chat_key m) m)
weight-children_of (arr xs) live = omega (arith, weight-item_children live xs)
weight-children_of _ live = refl

-- A visit takes one value off the queue.
weight-visit :
    (i : QueueItem) (q : List QueueItem) → suc (weight (q ++ children i)) ≡ weight (i ∷ q)
unfolding children
weight-visit i q = omega (
  arith,
  weight-children_of i.value i.in_live_chat,
  total-append (λ (j : QueueItem). size j.value) q (children_of i.value i.in_live_chat),
)

module _ (fuel : ℕ) (i : QueueItem) (q : List QueueItem) where
  search_goes : offer i ≡ [] → search (suc fuel) (i ∷ q) ≡ search fuel (q ++ children i)
  unfolding search
  search_goes e = rw (e, search) refl

  search_returns : (c : ℕ) (s : Bytes) → offer i ≡ c ∷ s → search (suc fuel) (i ∷ q) ≡ some (c ∷ s)
  unfolding search
  search_returns c s e = rw (e, search) refl

search_ends :
    (fuel : ℕ) (q : List QueueItem) → weight q ≤ fuel → (c : Bytes) × (search fuel q ≡ some c)
unfolding search
search_ends zero [] h = ([], refl)
search_ends zero (i ∷ q) h = absurd (omega (arith, weight-visit i q))
search_ends (suc fuel) [] h = ([], refl)
search_ends (suc fuel) (i ∷ q) h = elim (List-cases (offer i)) [
  | inl e ↦
      rw (search_goes fuel i q e)
        (search_ends fuel (q ++ children i) (omega (arith, weight-visit i q)))
  | inr (c, s, e) ↦ (c ∷ s, search_returns fuel i q c s e)
]

Barren : QueueItem → Type 0
Barren i = (j : QueueItem) → Reaches i j → offer j ≡ []

Barren-children : (i : QueueItem) → offer i ≡ [] → All Barren (children i) → Barren i
unfolding Barren
Barren-children i e h j here = e
Barren-children i e h j (below {k = k} m r) = All-Memᴰ Barren (children i) k h m j r

search_missing : (fuel : ℕ) (q : List QueueItem) → search fuel q ≡ some [] → All Barren q
unfolding search
search_missing zero [] h = tt
search_missing zero (i ∷ q) h = absurd (ground (arith, h))
search_missing (suc fuel) [] h = tt
search_missing (suc fuel) (i ∷ q) h = elim (List-cases (offer i)) [
  | inl e ↦
      let rest = search_missing fuel (q ++ children i) (sym (search_goes fuel i q e) ∙ h) in
      let parts = All-split Barren q (children i) rest in (Barren-children i e parts.1, parts.0)
  | inr (c, s, e) ↦ absurd (ground (arith, h, search_returns fuel i q c s e))
]

-- Some item of the queue leads to a node that offers the text.
Source : Bytes → QueueItem → Type 0
Source c i = (j : QueueItem) × Reaches i j × (offer j ≡ c)

from_queue :
    (i : QueueItem) (q : List QueueItem) (c : Bytes) (k : QueueItem)
    → Memᴰ k q ⊎ Memᴰ k (children i)
    → Source c k
    → (j : QueueItem) × Memᴰ j (i ∷ q) × Source c j
unfolding Source
from_queue i q c k (inl m) src = (k, Memᴰ.tail m, src)
from_queue i q c k (inr m) (j, r, e) = (i, Memᴰ.head refl, (j, below m r, e))

search_found :
    (fuel : ℕ) (q : List QueueItem) (c : Bytes)
    → search fuel q ≡ some c
    → c ≢ []
    → (i : QueueItem) × Memᴰ i q × Source c i
unfolding search Source
search_found zero [] c h ne = absurd (ground (arith, h, ne))
search_found zero (i ∷ q) c h ne = absurd (ground (arith, h))
search_found (suc fuel) [] c h ne = absurd (ground (arith, h, ne))
search_found (suc fuel) (i ∷ q) c h ne = elim (List-cases (offer i)) [
  | inl e ↦
      let (k, m, src) =
        search_found fuel (q ++ children i) c (sym (search_goes fuel i q e) ∙ h) ne in
      from_queue i q c k (Memᴰ.append_cases q m) src
  | inr (d, s, e) ↦ (i, Memᴰ.head refl, (i, here, grind (arith, h, search_returns fuel i q d s e)))
]

abbrev pub root : Fields → QueueItem
root page = record { value = obj page; in_live_chat = false }

find_initial_continuation_ends :
    (page : Fields) → (c : Bytes) × (find_initial_continuation page ≡ some c)
unfolding find_initial_continuation size
find_initial_continuation_ends page = search_ends (size (obj page)) (root page ∷ []) (omega arith)

sound :
    (page : Fields) (c : Bytes)
    → find_initial_continuation page ≡ some c
    → c ≢ []
    → Source c (root page)
unfolding find_initial_continuation
sound page c h ne =
    let (i, m, src) = search_found (size (obj page)) (root page ∷ []) c h ne in
    subst (Source c) (Memᴰ.eq_of_singleton m) src

missing : (page : Fields) → find_initial_continuation page ≡ some [] → Barren (root page)
unfolding find_initial_continuation
missing page h = (search_missing (size (obj page)) (root page ∷ []) h).0

-- On every page the search ends with the fuel it is given: either it returns no text, and no
-- value below the root offers a continuation; or it returns a text that is not empty, which a
-- value below the root offers, a live chat's or one within it.
pub find_initial_continuation_lem :
    (page : Fields)
    → ((find_initial_continuation page ≡ some [])
        × ((j : QueueItem) → Reaches (root page) j → offer j ≡ []))
      ⊎ ((c : Bytes) × (j : QueueItem) × (find_initial_continuation page ≡ some c)
          × (c ≢ [])
          × Reaches (root page) j
          × (offer j ≡ c))
unfolding Source Barren
find_initial_continuation_lem page =
    let (c, h) = find_initial_continuation_ends page in
    elim (List-cases c) [
      | inl e ↦ inl (rw e at h, missing page (rw e at h))
      | inr (d, s, e) ↦
          let ne : c ≢ [] = ground (arith, e) in
          let (j, r, o) = sound page c h ne in inr (c, j, h, ne, r, o)
    ]
