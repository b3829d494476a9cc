-- ===== src/Sink/Query/Marks.antt =====
-- The placeholders and the arguments of the statements of internal/sink/sqlite.go.
use gnasty_chat.Prelude.{
  ℕ, suc, ◌+◌, Bool, true, false, Option, none, some, List, [], ◌∷◌, ◌++◌, ◌≡◌, refl, arith,
  if◌then◌else◌, length, length-append, ◌==◌,
}
use gnasty_chat.Text.{Bytes, codes, join}
use gnasty_chat.Message.{Time}
use gnasty_chat.Http.Filters.{Filters, Order, desc, asc}
use gnasty_chat.Sink.Query.{
  Arg, number, repeat, texts, platform_condition, username_condition, since_condition, where_clause,
  order_name, list_limit, columns, build_message_query,
}

-- The placeholders of a statement.
pub marks : Bytes → ℕ
marks [] = 0
marks (c ∷ s) = (if c == b'?' then 1 else 0) + marks s

marks-append : (s t : Bytes) → marks (s ++ t) ≡ marks s + marks t
unfolding marks
marks-append [] t = omega arith
marks-append (c ∷ s) t = omega (arith, marks-append s t)

length-texts : (ps : List Bytes) → length (texts ps) ≡ length ps
unfolding texts
length-texts [] = refl
length-texts (p ∷ ps) = omega (arith, length-texts ps)

-- Every part has one mark, and the separator none.
marks-join-repeat :
    (sep s : Bytes) (p : Bytes) (ps : List Bytes)
    → marks sep ≡ 0
    → marks s ≡ 1
    → marks (join sep (repeat s (p ∷ ps))) ≡ suc (length ps)
unfolding repeat join
marks-join-repeat sep s p [] h one = one
marks-join-repeat sep s p (q ∷ ps) h one =
    let ih = marks-join-repeat sep s q ps h one in
    omega (
      arith,
      ih,
      one,
      h,
      marks-append s (sep ++ join sep (repeat s (q ∷ ps))),
      marks-append sep (join sep (repeat s (q ∷ ps))),
    )

pub marks_of : List Bytes → ℕ
marks_of [] = 0
marks_of (c ∷ cs) = marks c + marks_of cs

abbrev Matched : List Bytes × List Arg → Type 0
Matched (cs, args) = marks_of cs ≡ length args

platform_condition-Matched : (ps : List Bytes) → Matched (platform_condition ps)
unfolding platform_condition marks_of
platform_condition-Matched [] = refl
platform_condition-Matched (p ∷ ps) =
    let body = join (codes ",") (repeat (codes "?") (p ∷ ps)) in
    omega (
      arith,
      marks-append (codes "platform IN (") (body ++ codes ")"),
      marks-append body (codes ")"),
      marks-join-repeat (codes ",") (codes "?") p ps (unfold marks in refl) (unfold marks in refl),
      length-texts (p ∷ ps),
      zero-open,
      zero-close,
    )
  where
    zero-open : marks (codes "platform IN (") ≡ 0
    zero-open = unfold marks in refl

    zero-close : marks (codes ")") ≡ 0
    zero-close = unfold marks in refl

username_condition-Matched : (us : List Bytes) → Matched (username_condition us)
unfolding username_condition marks_of
username_condition-Matched [] = refl
username_condition-Matched (u ∷ us) =
    let item = codes "LOWER(username) LIKE '%' || ? || '%'" in
    let body = join (codes " OR ") (repeat item (u ∷ us)) in
    omega (
      arith,
      marks-append (codes "(") (body ++ codes ")"),
      marks-append body (codes ")"),
      marks-join-repeat (codes " OR ") item u us (unfold marks in refl) (unfold marks in refl),
      length-texts (u ∷ us),
      zero-open,
      zero-close,
    )
  where
    zero-open : marks (codes "(") ≡ 0
    zero-open = unfold marks in refl

    zero-close : marks (codes ")") ≡ 0
    zero-close = unfold marks in refl

since_condition-Matched : (t : Option Time) → Matched (since_condition t)
unfolding since_condition marks_of marks
since_condition-Matched none = refl
since_condition-Matched (some t) = refl

marks_of-append : (cs ds : List Bytes) → marks_of (cs ++ ds) ≡ marks_of cs + marks_of ds
unfolding marks_of
marks_of-append [] ds = omega arith
marks_of-append (c ∷ cs) ds = omega (arith, marks_of-append cs ds)

marks-join : (sep : Bytes) (cs : List Bytes) → marks sep ≡ 0 → marks (join sep cs) ≡ marks_of cs
unfolding join marks_of
marks-join sep [] h = unfold marks in refl
marks-join sep (c ∷ []) h = omega arith
marks-join sep (c ∷ d ∷ cs) h = omega (
  arith,
  marks-join sep (d ∷ cs) h,
  h,
  marks-append c (sep ++ join sep (d ∷ cs)),
  marks-append sep (join sep (d ∷ cs)),
)

marks-where_clause : (cs : List Bytes) → marks (where_clause cs) ≡ marks_of cs
unfolding where_clause marks_of
marks-where_clause [] = unfold marks in refl
marks-where_clause (c ∷ cs) =
    let zero-where : marks (codes " WHERE ") ≡ 0 = unfold marks in refl in
    omega (
      arith,
      marks-append (codes " WHERE ") (join (codes " AND ") (c ∷ cs)),
      zero-where,
      marks-join (codes " AND ") (c ∷ cs) (unfold marks in refl),
    )

marks-order_name : (o : Order) → marks (order_name o) ≡ 0
unfolding order_name marks
marks-order_name desc = refl
marks-order_name asc = refl

pub matched_conditions :
    (f : Filters)
    → marks (
        where_clause (
          (platform_condition f.platforms).0
          ++ ((username_condition f.usernames).0 ++ (since_condition f.since).0)))
      ≡ length (
          (platform_condition f.platforms).1
          ++ ((username_condition f.usernames).1 ++ (since_condition f.since).1))
matched_conditions f =
    let ps = platform_condition f.platforms in
    let us = username_condition f.usernames in
    let ss = since_condition f.since in
    omega (
      arith,
      marks-where_clause (ps.0 ++ (us.0 ++ ss.0)),
      marks_of-append ps.0 (us.0 ++ ss.0),
      marks_of-append us.0 ss.0,
      length-append ps.1 (us.1 ++ ss.1),
      length-append us.1 ss.1,
      platform_condition-Matched f.platforms,
      username_condition-Matched f.usernames,
      since_condition-Matched f.since,
    )

marks_count : marks (codes "SELECT COUNT(*) FROM messages") ≡ 0
unfolding marks
marks_count = refl

marks_end : marks (codes ";") ≡ 0
unfolding marks
marks_end = refl

marks-columns : marks columns ≡ 0
unfolding marks
marks-columns = refl

marks_order : marks (codes " ORDER BY ts ") ≡ 0
unfolding marks
marks_order = refl

marks_limit : marks (codes " LIMIT ?;") ≡ 1
unfolding marks
marks_limit = refl

-- The statement for any filters, for counting or listing, has as many placeholders as arguments.
pub marks-build_message_query :
    (f : Filters) (count : Bool)
    → marks (build_message_query f count).0 ≡ length (build_message_query f count).1
unfolding build_message_query
marks-build_message_query f true =
    let clause = where_clause (
      (platform_condition f.platforms).0
      ++ ((username_condition f.usernames).0 ++ (since_condition f.since).0)) in
    omega (
      arith,
      matched_conditions f,
      marks-append (codes "SELECT COUNT(*) FROM messages") (clause ++ codes ";"),
      marks-append clause (codes ";"),
      marks_count,
      marks_end,
    )
marks-build_message_query f false =
    let clause = where_clause (
      (platform_condition f.platforms).0
      ++ ((username_condition f.usernames).0 ++ (since_condition f.since).0)) in
    let args =
      (platform_condition f.platforms).1
      ++ ((username_condition f.usernames).1 ++ (since_condition f.since).1) in
    let rest = codes " ORDER BY ts " ++ (order_name f.order ++ codes " LIMIT ?;") in
    omega (
      arith,
      matched_conditions f,
      marks-append columns (clause ++ rest),
      marks-append clause rest,
      marks-append (codes " ORDER BY ts ") (order_name f.order ++ codes " LIMIT ?;"),
      marks-append (order_name f.order) (codes " LIMIT ?;"),
      marks-order_name f.order,
      marks-columns,
      marks_order,
      marks_limit,
      length-append args (number (list_limit f.limit) ∷ []),
    )
