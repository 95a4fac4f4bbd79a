-- ===== src/Lib.antt =====
-- The lottery ticket search of lottery-go: clients search tickets by a pattern such as "12*4**", the
-- server reserves matching tickets for a while, and a reservation is confirmed, which sells the
-- ticket, or released.
--
-- The parts, and the files that model them (paths from the repository's root):
--   lottery-go/pattern.go: Pattern. ParsePattern is parse_pattern, over the bytes of the text;
--     MatchCount, NumberAt and Matches are match_count, number_at and matches. Decimal is the
--     zero-padded printing of fmt.Sprintf. Pattern/Parsing, Pattern/Horner, Pattern/Odometer and
--     Pattern/Laws hold the proofs.
--   lottery-go/walker.go: Walker, with new_walker, coprime_to, next and gcd.
--   lottery-go/candidates.go: Candidates, with candidates and next_batch.
--   lottery-go/bitmap.go: Bitmap, with set_bit, clear_bit, test_bit and next_set.
--   lottery-go/index.go: Index. BuildIndex is build_index, in its three passes, and TicketsFor is
--     tickets_for.
--   lottery-go/ticketstore.go: TicketStore holds the shared types; the interface is the record
--     TicketStore of Server.
--   lottery-go/store.go: Store. NewMemoryStore is new_memory_store; Claim is claim, with claimPass as
--     claim_pass, claim_rounds, claim_batch and claim_ids, one for each loop; Confirm is confirm, with
--     sell for the sale; Release is release. The state is the record MemoryStore. Store/Stock and
--     Store/Valid state the invariant, Store/Reserve to Store/Claim follow a claim, Store/Sell and
--     Store/Confirm the other two, and Store/History and Store/Safety sequences of calls.
--   lottery-go/postgres/load.go: Availability, the hint of a replica. Load is load_hint, and the other
--     methods keep their names. Availability/Safety sets the hint beside the stock of the database, and
--     Hybrid/Loads has loadSQL as load_sql.
--   lottery-go/server.go: Server, the handlers over any TicketStore. Server/Memory puts the memory store
--     behind them.
--   lottery-go/metrics.go: Metrics. Observe is observe, and Snapshot is snapshot, its float64 quotients
--     left as pairs of numbers.
--   lottery-go/postgres/store.go: Postgres. A table is a list of rows, an UPDATE is update_where, and
--     confirmSQL and releaseSQL are confirm_sql and release_sql; Confirm, Release and explainFailure are
--     confirm_ticket, release_ticket and explain_failure. Postgres/Statements has claimSQL,
--     distinctClaimSQL and reapSQL as claim_sql, distinct_claim_sql and reap_expired, and
--     Postgres/Claims has Claim as claim_tickets, with claimRows as claim_rows and its two loops as
--     claim_loop. Postgres/Agree sets Confirm beside the memory store's, and
--     Postgres/Ends and
--     Postgres/Freed tell how Confirm and Release end however their statements do, and Reaper what
--     ReapExpired does. Postgres/Picks, Answers and
--     Takes are about one statement, Loop, Promise and Serves about a whole claim, Schedule and Safety
--     about any statements in a sequence, Numbers, Whole and Complete about what a claim leaves, and
--     Unsold counts a table's unsold tickets, for the hint. Postgres/Background has RunReaper as
--     run_reaper.
--   lottery-go/postgres/hybrid.go: Hybrid. The state is the record Hybrid: the table, the hint and the
--     map numberOf. Claim is claim_hybrid, whose rounds are ask_hybrid on the loop of Postgres/Claims;
--     Confirm, Release and Refresh are confirm_hybrid, release_hybrid and refresh, and a notification
--     is notified. Hybrid/Background has RunRefresher and RunListener as run_refresher and
--     run_listener, Hybrid/Steps the sequences of calls, Hybrid/Interleaved those of their steps, and
--     Hybrid/Race two ways to count a sale twice that these exclude.
--   lottery-go/postgres/sharded.go: Sharded. Claim is claim_sharded, with its outer loop claim_shards,
--     and hashString is hash_string.
--   lottery-go/cmd/api/main.go: Commands/Config, loadConfig as load_config.
--   lottery-go/cmd/seed/main.go: Commands/Seed, the source of its rows as next_row.
--   lottery-go/cmd/loadgen/main.go: Commands/Loadgen, mixedPattern as mixed_pattern and report as
--     report. Commands/Mixed and Commands/Report hold the proofs.
--
-- How the parts meet: a pattern's candidates are the numbers NumberAt gives for the indices that a
-- walker visits. The memory store looks each candidate up in its bitmap, reads the ids of its tickets
-- from the index, and reserves what is free. The server parses the request, calls the store through
-- its interface and prints the numbers with six characters.
--
-- Conventions. Each method of the memory store holds its mutex from start to end, so a call is one
-- step on the state; concurrent calls are the sequences of Store/History. `none` is a run-time panic,
-- or fuel that ran out; the theorems that say that a call returns exclude both. The clock, the answers
-- of a context, the values that a random generator draws, the rows that the database answers with and
-- the decoded JSON bodies are arguments. The uint16, uint32 and int32 counters keep their wrap-around.
-- Index and Availability take the size of the number space as an argument.
-- The count and the lease of a claim are natural numbers: the server asks for one ticket at least, and a
-- negative lease, which a setting may give, is left out.
--
-- The database. A statement is one step on the table, and a claim on it is a list of rounds. For each
-- round its Turn gives what other transactions do before the statement, the rows that the statement
-- passes over (by SKIP LOCKED, or because LIMIT without an order is served by others), its time now()
-- and its Fate: it answers, is rejected without an effect, or has run and its answer is lost. Confirm
-- and Release take a Fate for each of their two statements.
-- The theorems hold for all of these, within the conditions that each states.
--
-- Fuel. coprimeTo draws until a draw is usable, which a run of bad luck can put off without end: it runs
-- on fuel, and the theorems ask that one of the draws within it is usable. The outer loop of claimPass
-- gets one round more than the pattern has matches, and every round takes a number, so the fuel is
-- enough; that is part of the theorems on Claim. The loops of Claim in the database have
-- at most maxBatches rounds in the code too. The loop of gcd recurses on accessibility. All other
-- loops recurse on lists or counts.
--
-- Not modelled: the connection pool, Migrate and the transport of rows; StreamTickets, which passes
-- rows on to a callback; the timers and channels of RunReaper, RunRefresher and RunListener, whose
-- ticks and notifications are lists; HTTP routing, headers, JSON text and logging; the set-up and I/O
-- of the commands under lottery-go/cmd; the tests, with
-- lottery-go/storetest.
pub mod Prelude
pub mod Decimal
pub mod Pattern
pub mod Walker
pub mod Candidates
pub mod Bitmap
pub mod Index
pub mod TicketStore
pub mod Sharded
pub mod Commands
pub mod Store
pub mod Availability
pub mod Server
pub mod Metrics
pub mod Postgres
pub mod Hybrid
