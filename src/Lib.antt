-- ===== src/Lib.antt =====
-- Verification of MLPal Memory: a store of what an organisation's agents and people did, kept as
-- episodes and folded into a graph of nodes and edges that can be read as of any instant. The paths
-- below are those of src/mlpal_memory_graph/ in the repository.
--
-- The parts and how they interact. A worker (services/worker.py) takes pending episodes from the
-- table and folds each (pipeline/updater.py). A fold first asks the gate (pipeline/gates.py), which
-- asks for consent and for the extraction policy (services/policy.py). It then extracts entities and
-- edges (pipeline/extractor.py and others), resolves each entity to a node (pipeline/resolver.py),
-- and writes nodes and edges through the graph driver (graph/drivers/postgres.py), which supersedes
-- the edges of functional relations; other edges may go to a judge of contradictions
-- (pipeline/contradiction.py). Reads go through the driver, within the scopes of the caller
-- (core/scope.py, db/scoping.py). The clients of models use a circuit breaker and bounded retries
-- (services/resilience.py).
--
-- The files, and what they model:
--   Prelude: Boolean tests on numbers and texts, lists, and the library names that are passed on.
--   Scope: core/scope.py and db/scoping.py. Scope/Isolation is about the row predicate.
--   Temporal: core/temporal.py. Temporal/Windows compares the test with common instants.
--   Json: JSON values and Python's dict.
--   Graph: the rows of db/models/node.py and edge.py. Graph/Edges and Graph/Nodes are the writes of
--     graph/drivers/postgres.py (upsert_edge, invalidate_superseded, invalidate_edge; upsert_node,
--     end_entity, reopen_entity, purge_scope), Graph/Reads its reads (search filters, neighbors).
--     Graph/Register is the abstract view of a functional relation, a register that holds one fact
--     since a time; Graph/Ledger says what no write takes away,
--     and Graph/Views what a read as of an instant shows.
--   Resilience: services/resilience.py. Breaking is about the breaker, Retrying about with_retries.
--   Policy: services/policy.py. Tightening, Budgets and Chain are about its rows along the chain.
--   Fold: db/models/episode.py and the specs of pipeline/extractor.py. Fold/Stamp, Fold/Values,
--     Fold/Entities and Fold/Relations are the parts of Updater.process_episode, Fold/Process their
--     composition. Fold/Judge is pipeline/contradiction.py, Fold/Gate pipeline/gates.py,
--     Fold/Extractor pipeline/extractor.py.
--   Worker: services/worker.py and repositories/episodes.py. Cursor, Budget, Retries, Death and Progress are
--     about the order of folds and failed ones, Expiry about memories whose writer set an end.
--   Resolution: services/resolution.py. Access is about the scopes of a caller, Merge about hits.
--   Trust: pipeline/trust.py, the join of runs with verdicts and the tiers.
--   Units: services/units.py and db/models/unit.py. Units/Writes are its writes, Units/Access what the
--     tree grants a person; Descends, Lines and Reaches are about its walks, Safe about the tree under
--     writes, Grants and Publishing about what is granted.
--   Notes: services/notes.py and db/models/note.py. Notes itself is the text of a note, Parsing and
--     Canonical are about it; Notes/Store is the table with its versions, Ledger, History and Puts
--     are about the writes.
--   Hops: pipeline/hop_promote.py and pipeline/hop_cadence.py. Hops/Ladder is run_ladder of
--     pipeline/hop_eval.py, Promoted is about the decisions.
--   TopicState: fold_topic of pipeline/topic_state.py. Replays is about its bounds and about a session
--     that is folded twice.
--   Packets: the choice of build_packet in services/packets.py. Servable is about what is served.
--   Claims: pipeline/claims.py. Anchors and Slots are about which claims share a slot, Wired
--     and Folded about their edges, alone and beside those of the rules. claim_watch fills the record Watch
--     that the fold takes.
--   Tests: every property at a concrete input, and runs of the definitions.
--
-- How it is modelled. A table is a list of rows in the table's order; an SQL UPDATE or a loop over
-- selected rows is one pass over it. Row ids are numbers from a counter, where the program draws a
-- UUID. Instants, scores and durations are natural numbers, and a reading of the clock is an argument
-- `now`. An operation that may raise gives an Option, where `none` is the exception after which the
-- caller rolls back. A row object that several queries return is written back to the table under its
-- id, so that a later step sees it. Log lines and metrics are left out. The ids of actor and subject,
-- and the tools of a deployed server, are texts; what Python's str makes of other JSON values there is
-- left out. A call with retries has its breaker to itself: what other tasks do to a shared breaker
-- while it sleeps is left out.
--
-- Bounds. The loop of with_retries recurs on the rounds left, at most max(1, attempts); the walk of
-- neighbors on the depth. The walks over units recur on fuel: descendants on twice the rows,
-- ancestors on one more than the rows, and the climb of what is readable on the rows and the person's
-- own units. Units/Descends, Lines and Reaches are about why that is enough. Every other loop is
-- structural on a list or a text.
--
-- Parameters. Embeddings, the vector and text rankings of the database, the judge's answer, the
-- scores of services/salience.py, the patterns of services/pii.py, the vault of
-- services/redaction.py, the slug of a statement and the parser of dates are arguments of the
-- definitions that use them (Services, Screens, World, Watch and Readers), and so are str and
-- json.dumps of JSON values that are no texts, the decay of scores and the words that a query shares.
--
-- Not modelled: the HTTP and MCP interfaces, collectors, ingest plugins and connectors, the clients
-- of models and of embeddings, the extractors that call models, retrieval, projections, the lines of
-- packets, curation, distillation and the tools, which are thin over the database or over a model.
pub mod Prelude
pub mod Scope
pub mod Temporal
pub mod Json
pub mod Graph
pub mod Resilience
pub mod Policy
pub mod Fold
pub mod Worker
pub mod Resolution
pub mod Trust
pub mod Units
pub mod Notes
pub mod Hops
pub mod TopicState
pub mod Packets
pub mod Tests
pub mod Claims
