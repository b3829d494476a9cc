-- ===== src/Sink/Tests.antt =====
-- Instances of the theorems on the sinks.
mod Rows
use gnasty_chat.Prelude.{false, none, [], ◌∷◌, ◌≡◌, refl, ℤ, length}
use gnasty_chat.Text.{codes}
use gnasty_chat.Http.Filters.{Filters, asc}
use gnasty_chat.Sink.Query.Marks.{marks, marks-build_message_query}
use gnasty_chat.Sink.Query.{
  build_message_query, platform_condition, username_condition, since_condition,
}

abbrev filters : Filters
filters = record {
  platforms = codes "Twitch" ∷ codes "YouTube" ∷ [];
  usernames = codes "bob" ∷ [];
  since = none;
  limit = ℤ.pos 5;
  order = asc;
}

arguments : length (build_message_query filters false).1 ≡ 4
unfolding build_message_query platform_condition username_condition since_condition
arguments = refl

marks-build_message_query_example :
    marks (build_message_query filters false).0 ≡ length (build_message_query filters false).1
marks-build_message_query_example = marks-build_message_query filters false
