-- ===== src/Lib.antt =====
-- gnasty-chat: a chat harvester that reads Twitch IRC and YouTube Live, stores the messages in SQLite
-- and serves them over HTTP.
--
-- How the parts interact: the configuration is read once; a receiver turns provider traffic into chat
-- messages and hands each to a sink; the buffered writer collects them into batches for the SQLite sink;
-- a stored message is broadcast to the clients of the HTTP interface, whose requests become filters and
-- statements.
--
--   Prelude, Text, Dict, Json   what the program uses of Go: numbers, strings as bytes, maps, JSON.
--   Message, Trace, Backoff     internal/core/model.go, internal/ingesttrace/trace.go, and the doubling
--                               delay that several packages repeat.
--   Irc                         internal/twitchirc: Tags, Badges and Line are parsePrivmsg and its
--                               helpers, Session is the loop of runOnce, Retry is Run, Drops is
--                               drop_logging.go.
--   Token                       internal/twitch: token.go is the loader of the token's file, Refresh is
--                               oauth.go.
--   Config                      internal/config/config.go: Read and Lists are its helpers, the module
--                               itself is Load, Summary is what is shown of it.
--   Http                        internal/httpapi: Filters is filters.go, Hub the clients of server.go,
--                               Limits and Origins are parts of middleware.go.
--   TwitchBadges                internal/twitchbadges/resolver.go: the cache, the sets, Enrich.
--   Harvester                   Updates is the keeping of the token in cmd/harvester/main.go, Reload is
--                               internal/harvester/harvester.go.
--   Ytlive                      internal/ytlive: Resolver and Balanced are resolver.go, the rest is client.go:
--                               Page is bootstrap, Continuation its search, Poll and
--                               Messages read the answer of a poll, Emotes the text of a message,
--                               and Run is the loop.
--   Sink                        internal/sink: Buffered is buffered.go, the rest is sqlite.go: Query is
--                               buildMessageQuery, Store the rows of Write and ListMessages, Retry
--                               is withRetry, Legacy the migration. Store holds withapi.go too.
--
-- Operations under a lock are single steps, and what other code does between them is a list of such
-- steps or a step relation. Times are nanoseconds; the clock's readings are arguments. A Go map is an
-- association list, whose order stands for the order of `range`. Strings are byte lists; case and white
-- space are those of ASCII. An int is an integer without bounds where the program only compares it, and
-- wraps around at 64 bits where it multiplies. JSON numbers are integers.
-- Loops are structural recursion on the text, the list or the sequence of events that they consume, so
-- no fuel is needed but for the digits of a number, where the number itself is enough, and for the search
-- of a page, where the number of its values is, as Ytlive/Continuation/Search shows, and for the occurrences of a name
-- in a page, where its length is, as Ytlive/Resolver/Found shows.
--
-- Parameters: the base writer of the buffer, the database of the SQLite sink, the badge resolver, SHA-256,
-- the token bucket, net.SplitHostPort, the parsers of the package time, json.Unmarshal, the
-- packages net/url, path and html, the regular expressions of badge versions, the answers of net/http, the
-- faults of the token's file, and the floating-point product of intervalFrom.
--
-- Not modelled: sockets, requests and HTTP handlers, SQLite itself, logging, metrics, flags and the start
-- of the parts in cmd; and, so far, internal/twitch/refresh.go.
pub mod Backoff
pub mod Config
pub mod Dict
pub mod Harvester
pub mod Http
pub mod Irc
pub mod Json
pub mod Message
pub mod Prelude
pub mod Sink
pub mod Text
pub mod Token
pub mod Trace
pub mod TwitchBadges
pub mod Ytlive
