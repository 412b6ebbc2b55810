-- ===== src/Lib.antt =====
-- The programs of the ISUCON6 final that are written in Go: the drawing application that
-- contestants speed up (webapp/go), the portal that queues and shows benchmark runs (portal), and
-- the benchmarker that a run executes (bench).
--
-- A team posts to the portal's queue; a benchmark node takes the job, gets with it the URLs of the
-- proxies, runs the benchmarker against the team's application and posts the result back. The
-- benchmarker watches rooms of the application through event streams and draws strokes.
--
-- Parts and files:
--
-- - Common: numbers, texts, lists and tests that all parts share.
-- - Sql: the statements on tables that the queries use, on lists of rows. Sql/Counts, Sql/Order,
--   Sql/Sorted and Sql/Selected are about counting, ORDER BY, LIMIT and what a changed row does to
--   a selection.
-- - Db: calls of the database driver and of the clock as actions on a world. Whether each coming
--   call fails is a list in the world; the driver itself is not part of the repository. Db/Keeps,
--   Db/Returns, Db/Triple and Db/Reads are the rules by which properties pass through a handler.
-- - Portal/Schema, Portal/Queue: portal/queue.go and portal/job/job.go. enqueueJob, dequeueJob
--   and doneJob are enqueue_job, dequeue_job and done_job, each cut at its statements;
--   Portal/Queue/Race runs them interleaved.
-- - Portal/Queue/Spec: what the queue promises, a first-in first-out line of jobs, and the
--   requests of the portal one after another.
-- - Portal/Contest: getContestStatus and getRankingFixedAt of portal/main.go.
-- - Portal/Messages, Portal/Proxies, Portal/Unguarded: portal/message.go and portal/proxy.go;
--   Unguarded is the transaction that both begin beside their statements.
-- - Portal/Replies: what the portal's handlers answer, and ServeHTTP of portal/main.go.
-- - Portal/Sessions, Portal/Pages: portal/web.go, the team that a request is from and the
--   handlers of pages.
-- - Portal/Forms, Portal/Debug: what stands around the updates of portal/message.go and
--   portal/proxy.go, and portal/debug.go.
-- - Portal/Mux: buildMux of portal/main.go, and requests for any path. Portal/Mux/Safe is about
--   requests that change nothing, Portal/Mux/Valid about the queue; the requests of serve_all run
--   one after another.
-- - Portal/Jobs: serveQueueJob, serveNewJob and servePostResult of portal/jobhandler.go.
-- - Webapp/Schema, Webapp/Queries, Webapp/Rooms, Webapp/Strokes: the tables, queries and handlers
--   of webapp/go/app.go, under their names in snake_case. A handler that the source writes as one
--   function is cut at its early returns.
-- - Webapp/Stream: getAPIStreamRoomsID, with the requests that run beside it as a parameter.
-- - Webapp/Integrity: what holds of the application's tables between requests.
-- - Webapp/Drawing: the strokes with their points that a room shows, and what posting a stroke
--   makes of them.
-- - Webapp/Mux: the routes of main, and requests for any of them, one after another but for those
--   beside a stream.
-- - Portal/Import: portal/cmd/importteams/main.go.
-- - Bench/Sse: the line reader of bench/sse/eventsource.go. Bench/Sse/Client is its request loop.
--   Bench/Sse/Frames writes the application's frames as lines and reads them back.
-- - Bench/Resume: the event source connected to the stream of the application, over any number of
--   connections. Bench/Resume/Heard is about answers that break off.
-- - Portal/Results: getResults and getTeamResults of portal/results.go. Portal/Results/Latest is
--   about what the first returns.
-- - Bench/Worker: bench/cmd/worker/worker.go; Bench/Worker/Round runs it against the handlers of
--   the portal.
-- - Bench/Seed: FluctuateStroke of bench/seed/seed.go.
-- - Bench/Svg: the parser of bench/svg/parse.go and the check of bench/scenario/misc.go that uses
--   it.
-- - Bench/Watching: bench/scenario/room_watcher.go.
-- - Bench/Matsuri: the crowd of watchers of bench/scenario/matsuri.go and its score.
-- - Bench/Scenario: the scenarios of bench/scenario as programs that talk to any site. Checks is
--   bench/scenario/misc.go and static_file.go, Pages and Initial are initial_check.go, Load is
--   benchmark.go and the watchers of initial_check.go, Command is bench/cmd/bench/main.go. Grown,
--   Ends, Sound, PageChecks, Runs, Loads and Safe are about panics and about what is counted,
--   Verdicts about when a page passes.
-- - Bench/Adler32: bench/scenario/adler32.go.
-- - Bench/Action: bench/action/action.go.
-- - Bench/Fails: bench/fails/fails.go and bench/score/score.go.
--
-- Numbers: ids, times, sizes and scores are natural numbers, and are not modelled to overflow. Most
-- variables have 64 bits; columns are narrower, ids of the portal 32 bits and the width and colours
-- of a stroke 8. A stroke whose width or colours do not fit is refused by the strict mode of the
-- database; for other columns such a refusal is one of the failures of the driver that the handlers
-- are given. A negative width or colour in a posted stroke is not modelled. Coordinates and alpha
-- are of a type that is a parameter, with a function for what a column makes of a value.
--
-- Loops: all are recursion on lists or on a number of turns. A stream has six turns, as in the
-- source. The fuel of crowd is a number of intervals, and one more than the timeout holds is
-- enough. The fuel of add_blocks is the number of blocks of 4096 runes and one more, which is
-- enough for every text.
--
-- Parameters: sort.Sort, bufio.Scanner and what the database makes of the text of an INSERT that
-- the portal puts together are arguments, with what the code relies on as hypotheses. A connection
-- of the event source may break off after any line, but not within one.
--
-- Not modelled: HTTP and JSON libraries, templates, sessions and cookies, the text of log lines,
-- the posts of Matsuri beside its crowd, the loop of benchmark that starts the scenarios of the
-- load, the order in which goroutines of a scenario interleave, the copy of net/http under
-- bench/http, and the application in other languages.
pub mod Common
pub mod Sql
pub mod Db
pub mod Portal
pub mod Webapp
pub mod Bench
