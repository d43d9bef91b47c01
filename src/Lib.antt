-- ===== src/Lib.antt =====
-- WhatsApp Radar reads chats and mails into a local store, finds in them what needs a parent's action, and
-- keeps travel blocks around the family's events in a calendar.
--
-- The program's parts, and the files that model them:
--
-- * The store. `Store/Rows` has the rows of src/db/schema.sql and the records of src/models.py. A table
--   is the list of its rows, in the order of insertion, with the last id given. `Store/Chats` is
--   src/db/chats.py, `Store/Messages` is the ingest, the deltas and the cursors of src/db/messages.py,
--   `Store/Retention` is src/db/retention.py. An operation takes the tables and returns the new
--   ones; a commit needs no model, as one process writes.
-- * The review. `Review` is the hold-back of src/analysis/transcription.py and the advance of cursors
--   of src/analysis/review.py. The delta of a family is read past each member's cursor, the part from
--   the first message that waits for a transcript is held back, and the members' cursors advance.
-- * The voice notes. `Transcription` is the phase of src/analysis/transcription.py, with the queries and
--   `mark_transcription` of src/db/messages.py. The cutoffs of the windows, the transcriber and the
--   language detector are arguments, and an exception of the transcriber is a constructor of `Heard`.
-- * Stage 1. `Keywords` is src/analysis/keywords.py, with the rules of a source and `normalize` as
--   arguments.
-- * The contract. `Contract` is src/analysis/contract.py. A `ContractError` is the result `err`, and
--   the decoder `json.loads` is an argument.
-- * The scan. `Pipeline/State` has the records of src/analysis/source_funnel.py, of `ScanOutcome` and of the
--   tables of src/db/runs.py; `Pipeline/Services` what an analysis calls outside the store;
--   `Pipeline/Reminders` is src/analysis/reminders.py; `Pipeline/Analyze` is `_analyze_chat` with its
--   branches, `Pipeline/Loop` the deltas and the loop over the monitored chats, `Pipeline/Finish` the end
--   of a run with the choice of a digest's items of src/report/digest.py, and `Pipeline/Scan` the
--   beginning, the sync, the abort and `scan`, all of src/analysis/pipeline.py; `Pipeline/Stale` is
--   `reconcile_stale_runs` of src/db/runs.py. The record `Setup` is
--   the configuration and the phases around the analysis. An exception that a handler catches is a
--   constructor or the second part of a pair.
-- * The sync. `Sync` is src/db/sync.py with `record_sync` of src/db/sync_log.py: the loop over the chats
--   of a connector, the fan-out over the sources, and `resync`. A connector is a record of what its
--   calls give, and `ConnectorOffline` is the constructor `offline`; what an ingest wrote before it stays.
-- * The family's rules. `Family` is src/family/rules.py: `Addresses` the loose match of two addresses,
--   `Location` where an event places its person, `Commutes` the drives and their origins, `QuietHours`
--   the night, `Conflicts` the hours that need somebody at home, `Overlaps` the double bookings. The
--   record `Words` is what they call of Python's library on texts.
-- * The travel blocks. `TravelBlocks/Model` is src/family/travel_blocks_model.py, `TravelBlocks/Blocks`
--   and `TravelBlocks/Reconcile` are src/family/travel_blocks_reconcile.py. The record `Runtime` is what
--   they call of Python's library. `TravelBlocks/Desired`, `TravelBlocks/Planned` and `TravelBlocks/Plan`
--   are src/family/travel_blocks.py: the drives to ask for, their time boxes, and the sweep.
--   `TravelBlocks/Pricing` is src/family/travel_blocks_pricing.py, where the route function may answer
--   each call differently, and `TravelBlocks/Write` is src/family/travel_blocks_write.py, where the disk
--   and the calendar client may fail at each call. A sweep plans from the calendars' events, prices
--   its drives, reconciles the planned legs with the listed blocks, and writes the difference.
--
-- `Base` passes the library's names on, and has the lists, the sort, the groups by key and the JSON values
-- that the parts share. `Tests` runs the parts on samples.
--
-- Every loop of these parts goes over a list, so the functions are by recursion on it and there is no fuel.
-- Ids, counts and instants are the native numbers; a confidence is in thousandths. Timestamps that the
-- store keeps are texts, compared as SQLite compares them. The rows of a JSON object have distinct keys.
--
-- A moment of a calendar is its instant, in microseconds, with a fixed offset; a duration is in seconds or
-- minutes, as the code has it.
--
-- Not modelled: the clients of WhatsApp, Gmail, the calendar, the hub, Routes and Telegram, which are
-- arguments; the names of backup files; the family's runs that call the rules; the margins of arrival
-- in floating point; how the phase of the voice notes and the tripwire act within a scan, which takes
-- them as arguments; the alert of the tripwire's nudge; the text of a decoder's error within a
-- `ContractError`, and a confidence that is not a finite number; the gaps that a conflict leaves in the
-- sequences of ids; the rows that the removal of a chat takes along in tables that the store here does
-- not have; migrations, report queries, the rendering of texts, the web application and the scripts.
pub mod Base
pub mod TravelBlocks
pub mod Family
pub mod Sync
pub mod Store
pub mod Review
pub mod Contract
pub mod Keywords
pub mod Transcription
pub mod Pipeline
pub mod Tests
