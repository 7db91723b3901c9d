-- ===== src/Lib.antt =====
-- WorkTrace: the ledger of human decisions, the candidate groups and their projection, the release
-- ladder, the mapped links, the Jira archive's selection, the encrypted vault format, the bounded
-- HTTP reader, and the MCP server's responses, pages and cursors.
--
-- WorkTrace collects evidence of work from Git, GitLab and Jira into a local SQLite database,
-- groups it into candidate contributions, and lets a person confirm, merge, split or undo these
-- groups. A rebuild (candidates/builder.py) derives groups from observations and references;
-- decisions refer to the groups and are only ever appended (candidates/decisions.py); the
-- projection of a candidate (candidates/projector.py) folds the active decisions over its group.
-- The MCP server lists projected candidates in pages of a bounded size, with cursors between them,
-- and redacts what it sends (mcp_server/, read_models/). A packet states how far a contribution was
-- released (packets/release.py) and when it was active (packets/activity.py); it follows a link of
-- a GitLab project to a local commit while a mapping is configured (linking/mappings.py). Jira
-- archives are selected by assignment (archive/jira/selector.py) and kept as encrypted objects
-- (vault/format.py), and the adapters talk to the providers through one bounded request function
-- (adapters/retry.py).
--
-- Where the parts are modelled, by paths below src/worktrace:
--   Decisions.Ledger, .Compensation, .Append   candidates/decisions.py: rows, active stream, appends
--                                              and undo; db/read_state.py: the revision counters
--   Decisions.Scope, .Ancestry                 the app that owns a decision; undo ancestry
--   Decisions.Lineage, .Context                connected components and the projection context
--   Candidates.Objects, .Search, .Groups       candidates/builder.py: seeds, bounded search, rebuild
--   Candidates.Projector, .Fold, .View         candidates/projector.py: the fold over the decisions,
--                                              the view and its errors
--   Server.Values, .Envelopes, .Pages          mcp_server/responses.py: envelopes and admitted pages
--   Server.Redaction, .Patterns                mcp_server/limits.py: redaction of output
--   Server.Cursors                             mcp_server/protocol.py: tokens and cursors
--   Server.Scan, .Listing                      read_models/agent_pages.py, read_models/candidates.py:
--                                              the scan; mcp_server/tools.py: the page and the tool
--   Packets.Kinds, .Release                    packets/authority.py, release.py, models.py: the
--                                              release ladder
--   Packets.Periods, .Activity                 packets/activity.py: the dated activity
--   Linking.Mappings                           linking/mappings.py, with db/repository.py's instance ids
--   Archive.Metadata, .Assignments             archive/jira/selector.py
--   Participation                              participation.py: canonical roles and categories
--   Retry.Reading, .Loop                       adapters/retry.py: bounded reading, retry loop
--   Vault.Bytes, .Descriptor, .Stream, .Write, .Read   vault/format.py: codec, writer, reader
--   Errors, Json                               errors.py as values; parsed JSON
-- Decisions.Undo, .Invariant, .History, .Ownership, Lineage.Component, Context.Agreement,
-- Search.Bounds, Search.Path, Search.Frontier, Search.Follow, Search.Complete, Groups.Retained,
-- Groups.Partition, Groups.Exact, Projector.Support, Projector.Undone, the modules of Pages, of
-- Scan and of Cursors, Redaction.Hidden, Release.Grounds, Release.Evidence, Activity.Rounds,
-- Activity.Bounds, Activity.Origins, Mappings.Admitted, Listing.Follows,
-- Participation.Implementation, Server.Prefixes, Assignments.Timeline, Assignments.Boundary,
-- Vault.RoundTrip, Vault.Safety, Reading.Bound, Reading.Ends and Loop.Bound hold the proofs; Tests
-- holds concrete runs.
--
-- The listing composes the parts: list_contribution_candidates decodes a cursor and refuses one of
-- another generation; candidate_page, behind it, takes the decoded position, scan_candidates reads
-- the rows after it and projects each, admit_page admits what fits, and the position of the last
-- admitted row makes the next cursor.
--
-- How code becomes definitions: a function that raises returns a Result, and an exception inside a
-- transaction leaves the state that was given; a table is a list of its rows in the order of
-- insertion, read through the same ORDER BY as the query; a dictionary or a set is a list whose
-- keys do not repeat. The payload of a decision is the parsed JSON, or none where parsing raises.
--
-- Fuel: `component` has one more than the stack and the neighbour sets hold; `walk` one more than
-- the decisions; the reader's loop one more than the bytes that are left, since each record takes
-- some; `read_exact` one more than the length asked for; the candidate search 202, since it queues
-- each of at most 201 members once; `decode_bounded` any number above the byte bound, since each
-- further round adds at least one byte. The scan of the listing stops at 200 rows and a page at the
-- budget that is given; a cursor is refused beyond 2,048 characters.
--
-- Parameters: redaction and validation of payloads (normalize/redaction.py), and what is no code of
-- the repository: the secretstream and SHA-256 (Vault.Stream, Linking.Mappings), json.dumps and
-- json.loads (Codec), the codec of cursors, zlib (Zlib), the HTTP client, the parsing of
-- Retry-After dates and of times and dates in a zone, re.sub and fnmatch with the patterns of the
-- source, str() of values that are no texts, and Python's casefold, strip, lower and isdigit over
-- Unicode. Random samples and delays are whole numbers of thousandths and of a unit of time, but for NaN; a time
-- is a number of units since some start.
--
-- Not modelled: path, symbolic link and temporary file handling of the vault, fsync, SQL text, time
-- stamps, the text of most messages, the tests of a row's generator version, the evidence scan and
-- context streams of the server, the shaping of packets, enforce_total_limit (which nothing calls),
-- and the rest of the program: adapters, importers, the packet builder, archive orchestration,
-- command line and terminal interface, which are I/O, SQL or presentation.
pub mod Prelude
pub mod Json
pub mod Errors
pub mod Decisions
pub mod Packets
pub mod Participation
pub mod Archive
pub mod Linking
pub mod Candidates
pub mod Retry
pub mod Server
pub mod Vault
mod Tests
