-- ===== src/Ytlive/Poll/First.antt =====
-- internal/ytlive/client.go, extractContinuation: the walk against the list of the maps it visits.
use gnasty_chat.Prelude.{
  true, false, Option, none, some, List, [], ◌∷◌, ◌++◌, ◌≡◌, refl, ℤ, inl, inr, Option-cases, ◌∙◌,
}
use gnasty_chat.Text.{Bytes}
use gnasty_chat.Json.{Json, arr, obj, Items, nil, cons, Fields, end, field}
use gnasty_chat.Ytlive.Continuation.{or_else}
use gnasty_chat.Ytlive.Poll.{
  Found, node_continuation, node_timeout, set_cont, set_timeout, walk, walk_items, walk_fields,
  extract_continuation,
}

-- The maps in a value, an outer one before those in it.
unfoldable mutual
  pub maps_in : Json → List Fields
  maps_in (obj m) = m ∷ maps_in_fields m
  maps_in (arr xs) = maps_in_items xs
  maps_in _ = []

  pub maps_in_items : Items → List Fields
  maps_in_items nil = []
  maps_in_items (cons x xs) = maps_in x ++ maps_in_items xs

  pub maps_in_fields : Fields → List Fields
  maps_in_fields end = []
  maps_in_fields (field k v m) = maps_in v ++ maps_in_fields m

-- The first continuation and the first time-out of a list of maps.
unfoldable pub first_cont : List Fields → Bytes
first_cont [] = []
first_cont (m ∷ ms) = or_else (node_continuation m) (first_cont ms)

unfoldable pub first_timeout : List Fields → Option ℤ
first_timeout [] = none
first_timeout (m ∷ ms) = elim (node_timeout m) [ none ↦ first_timeout ms | some n ↦ some n ]

visit_all : List Fields → Found → Found
visit_all [] r = r
visit_all (m ∷ ms) r = visit_all ms (set_timeout m (set_cont m r))

visit_all-append :
    (ms ks : List Fields) (r : Found) → visit_all (ms ++ ks) r ≡ visit_all ks (visit_all ms r)
unfolding visit_all
visit_all-append [] ks r = refl
visit_all-append (m ∷ ms) ks r = visit_all-append ms ks (set_timeout m (set_cont m r))

mutual
  unfolding walk maps_in maps_in_items maps_in_fields walk_items walk_fields visit_all

  walk-eq : (v : Json) (r : Found) → walk v r ≡ visit_all (maps_in v) r
  walk-eq (obj m) r = walk_fields-eq m (set_timeout m (set_cont m r))
  walk-eq (arr xs) r = walk_items-eq xs r
  walk-eq _ r = refl

  walk_items-eq : (xs : Items) (r : Found) → walk_items xs r ≡ visit_all (maps_in_items xs) r
  walk_items-eq nil r = refl
  walk_items-eq (cons x xs) r = rw (walk-eq x r, walk_items-eq xs, visit_all-append) refl

  walk_fields-eq : (m : Fields) (r : Found) → walk_fields m r ≡ visit_all (maps_in_fields m) r
  walk_fields-eq end r = refl
  walk_fields-eq (field k v m) r = rw (walk-eq v r, walk_fields-eq m, visit_all-append) refl

or_else_assoc : (s t u : Bytes) → or_else (or_else s t) u ≡ or_else s (or_else t u)
unfolding or_else
or_else_assoc [] t u = refl
or_else_assoc (c ∷ s) t u = refl

or_else-nil : (s : Bytes) → or_else s [] ≡ s
unfolding or_else
or_else-nil [] = refl
or_else-nil (c ∷ s) = refl

-- What the walk returns with a continuation and a time-out.
unfoldable pub to_found : Bytes → Option ℤ → Found
to_found c none = record { cont = c; timeout = ℤ.pos 0; has_timeout = false }
to_found c (some n) = record { cont = c; timeout = n; has_timeout = true }

visit_found :
    (m : Fields) (c : Bytes)
    → set_timeout m (set_cont m (to_found c none))
      ≡ to_found (or_else c (node_continuation m)) (node_timeout m)
unfolding set_timeout set_cont to_found
visit_found m c = elim (Option-cases (node_timeout m)) [
  | inl e ↦ rw e refl
  | inr (n, e) ↦ rw e refl
]

visit_all_timed :
    (ms : List Fields) (c : Bytes) (n : ℤ)
    → visit_all ms (to_found c (some n)) ≡ to_found (or_else c (first_cont ms)) (some n)
unfolding visit_all set_timeout set_cont to_found first_cont
visit_all_timed [] c n = rw (or_else-nil c) refl
visit_all_timed (m ∷ ms) c n =
    rw (visit_all_timed ms (or_else c (node_continuation m)) n, or_else_assoc) refl

visit_all_found :
    (ms : List Fields) (c : Bytes)
    → visit_all ms (to_found c none) ≡ to_found (or_else c (first_cont ms)) (first_timeout ms)
unfolding visit_all first_cont first_timeout
visit_all_found [] c = rw (or_else-nil c) refl
visit_all_found (m ∷ ms) c = elim (Option-cases (node_timeout m)) [
  | inl e ↦ rw (visit_found m c, e, first_timeout, visit_all_found ms, or_else_assoc) refl
  | inr (n, e) ↦ rw (visit_found m c, e, first_timeout, visit_all_timed ms, or_else_assoc) refl
]

-- The walk returns the continuation of the first map that has one, and the time-out of the first
-- map that has one, of all the maps in the answer, an outer one before those in it.
pub extract_continuation-eq :
    (payload : Fields)
    → extract_continuation payload
      ≡ to_found (first_cont (maps_in (obj payload))) (first_timeout (maps_in (obj payload)))
unfolding extract_continuation to_found or_else
extract_continuation-eq payload =
    let start : Found = record { cont = []; timeout = ℤ.pos 0; has_timeout = false } in
    walk-eq (obj payload) start ∙ visit_all_found (maps_in (obj payload)) []
