-- ===== src/Lib.antt =====
-- A verification library of PolarixPlus, a framework in Go for bots of the QQ platform.
--
-- The program keeps a WebSocket connection to the platform's gateway (lib/gateway), hands the events
-- that it reads to a middleware, which finds the command that a message names and asks whether the
-- sender may use it (lib/plugin), fires jobs on time (lib/schedule), and keeps its log in memory for
-- an admin page (lib/logx).
--
-- - Base: what the parts share. Base/Tests has the Boolean tests on numbers and the chain of fallible
--   steps; Base/Lists lists with native indices; Base/Bytes text as bytes; Base/Dict Go's maps as
--   association lists; Base/Scan and Base/Order the functions of `strings`, `strconv` and `slices`
--   that the code calls; Base/Int64 Go's `int` as a bit pattern below 2 ^ 64.
-- - Logx (lib/logx): `Entry`, `Filter`, parseLevel and matches; Logx/Ring the ring of stream.go
--   (newRing, push, snapshot, resized), where an index out of range is `none`; Logx/Hub the hub.
-- - Schedule (lib/schedule): Schedule/Cron is cron.go, with the sets of values as lists; the loop that
--   fills a set runs on 128 rounds of fuel, which is enough for every accepted segment, since a field
--   ends below 60 and each round that stays in the field goes up, or wraps once. Schedule/Jobs is
--   schedule.go: a heap of jobs that the registry and the loops refer to by index, one function per
--   critical section, and the goroutines started as lists.
-- - Gateway (lib/gateway): Gateway/Intents is intents.go; Gateway/Session one connection (conn.go,
--   codes.go), with the frames read and the ticks of the heartbeat as a sequence of events; what
--   encoding/json reads in a payload is a parameter, and so is whether a write succeeds; Gateway/Loop
--   the rounds of Start (client.go), with the random numbers and the API's answers as parameters.
-- - Plugin (lib/plugin): the registry of commands; Plugin/Access the access rules, Plugin/Resolve how
--   words find a command, Plugin/Settings the settings of plugins, whose callbacks are parameters.
-- - Middleware (lib/middleware): Middleware/Dispatch is dispatchCommand up to the call of a handler, on
--   the registry of Plugin; Middleware/Arguments the text that a handler gets; Middleware/Pool the pool
--   of workers, as a sequence of operations; Middleware/Verify the seed of the signing key, on six
--   rounds of fuel, which five doublings of one byte to 32 need.
-- - Api (lib/requests, lib/qqapi): Api/Http the retries of a request, Api/Token the cached access token,
--   Api/Send the retries of a message, each of which is a request of Api/Http, on three rounds of fuel,
--   since the third attempt always decides, Api/Upload the parts of an upload, Api/Stream a streamed
--   message. The network is a function from the number of an attempt to its outcome.
-- - Message (lib/message, lib/buttons): Message/Count the counter of replies and Send, Message/Keyboard
--   the keyboards of buttons, Message/At the protection of "@", and Message/Plan (lib/context/builder.go)
--   how the parts of a message are merged, with the slots of the images, which goroutines fill; the
--   image host is a parameter.
-- - Storage (lib/storage): the key-value operations. Storage/Sql has the part of SQL that the code uses:
--   the statements are data, as they stand in the code, and a database is an interface that runs them
--   as SQLite documents; Storage/Keyed is what the program's statements do. encoding/json is a
--   parameter.
-- - Images (lib/images): IsImage and Probe, where reading outside the buffer is `none`; the loop over
--   the segments of a JPEG file runs on the length of the buffer, since each round moves on by a byte.
-- - Config (lib/config): Config/Keys is applyCoreKey, with what encoding/json reads in a value as a
--   parameter; Config/Persist is persist and its callers, on the file config.json and the
--   configuration in memory, which shares the maps of the plugins with the copies made of it; a write
--   that fails leaves anything in the file.
-- - Admin (lib/admin): Admin/Session the sessions, the login and the check of each request, with
--   SHA-256 and the random tokens as parameters; Admin/Settings the settings page and its patches,
--   on the operations of Config.
-- - Push (plugins/push): the commands that allow pushing, the limit on failed attempts and the HTTP
--   handler, on the operations of Storage.
-- - Assets (lib/assets): Assets/Input decodes media, with base64 and the disk as parameters;
--   Assets/Host chooses the image hosts and uploads images, with the providers, HTTP and the parsing
--   of URLs as parameters that move a world on; Assets/Markdown replaces the images of a text;
--   Assets/Manager reads and saves the configuration of the hosts.
--
-- Not modelled: the JSON of a message, the other pages of the admin server, templates, the
-- other bundled plugins and the web page. JSON, HTTP and cryptography belong to libraries.
-- Text is bytes. White space and upper case are those of ASCII, where `strings` knows Unicode's too: a
-- text with an ideographic space is cut or trimmed there by the code, and not in the model.
-- Goroutines are not modelled as such: what they do is a sequence of operations, in any order.
pub mod Base
pub mod Logx
pub mod Schedule
pub mod Gateway
pub mod Plugin
pub mod Api
pub mod Message
pub mod Middleware
pub mod Storage
pub mod Images
pub mod Config
pub mod Admin
pub mod Push
pub mod Assets
