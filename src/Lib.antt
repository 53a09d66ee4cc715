-- ===== src/Lib.antt =====
-- Pootle: the synchronisation of a project's stores with the files of a file system, and the
-- update of the units of a store from a file; the quality checks of units; the statistics of
-- stores, projects and directories; the scores of users; merging and purging of users; batches of
-- rows; and the language codes of a project.
--
-- The program's parts and how they interact. pootle/apps/pootle_fs compares the stores of a
-- project with its files (state.py, resources.py), and its plugin (plugin.py) stages rows of the
-- table `StoreFS` by what the state says, for the next synchronisation. When a file is pulled
-- into a store, pootle/apps/pootle_store compares the units of both (diff.py) and updates each
-- unit with a three-way merge (updater.py, models.py). What users do in a store is logged as
-- suggestions and submissions; pootle/apps/pootle_log makes events of them, and
-- pootle/apps/pootle_score adds up the scores of events in rows by day and user, of stores, of
-- translation projects (TPs) and of users. pootle/apps/pootle_checks keeps a row for each quality
-- check that fails in a unit, and pootle/apps/pootle_data counts the words, checks and suggestions
-- of a store's units, adds them up in the row of its TP, and adds up the rows of the children of a
-- directory, language or project for a page. pootle/apps/accounts merges one user into another, or
-- purges a user from the site.
--
-- Files. Base: shared names, Boolean tests, equality by instances, lists, Python dicts as lists
-- of pairs, a stable sort, and the differences of numbers. Core/Response:
-- pootle/core/response.py; its child Add has what is read of it. Core/Batch:
-- pootle/core/batch.py; its child Rounds has the loop. Project/LangMapper:
-- pootle_project/lang_mapper.py. Fs/Model: the tables, the directory and the configuration that
-- pootle_fs works on. Fs/Resources and Fs/State: pootle_fs/resources.py and pootle_fs/state.py;
-- each `state_*` of tracked rows is a condition on a row, `in_*`, and `reload` gives the items
-- of every state. Fs/State/Facts and Fs/State/Table: the decision table. Fs/Tables and
-- Fs/Plugin: the bulk writes and the staging operations of pootle_fs/plugin.py. Fs/Files: when
-- pootle_fs/files.py pulls and pushes a file, and `on_sync`. Fs/Response: the actions of
-- pootle_fs/response.py. Fs/Transfer: `pull`, `push` and `delete` of pootle_fs/files.py.
-- Fs/Sync: the `sync_*` methods and `sync` of pootle_fs/plugin.py; its children follow the
-- responses, the rows, the stores and the files through the rounds of each part. Store/Unit:
-- `Unit.update` and the methods that it calls, in pootle_store/models.py. Store/Updater:
-- `UnitUpdater` of pootle_store/updater.py and `SuggestionsReview.add` of
-- pootle_store/utils.py. Store/Diff: `StoreDiff` of pootle_store/diff.py. Store/StoreUpdater:
-- `StoreUpdater` of pootle_store/updater.py, with the methods of `Store` in
-- pootle_store/models.py that it calls; its child Run has `_update`. Store/Syncer:
-- `StoreSyncer.sync` of pootle_store/syncer.py. Score/Log: the events of pootle_log/utils.py,
-- and in its child Order how they compare. Score/Calculate: pootle_score/scores.py and
-- `StoreScoreUpdater.calculate` of pootle_score/updater.py; its children have the sums of
-- events and the points of rows. Score/Update: `set_scores` and `update`; Score/Totals: the
-- updaters of TPs and users. Quality: `QualityCheckUpdater` and `UnitQualityCheck` of
-- pootle_checks/utils.py, with a child each for the rows, for what one unit's update compares,
-- for the whole update, and for `run_given_filters`. Data/Checks: `set_check_data` of
-- pootle_data/utils.py. Data/Units: pootle_data/store_data.py. Data/Totals: `update` of
-- pootle_data/utils.py, and pootle_data/tp_data.py. Data/Children: `RelatedStoresDataTool` of
-- pootle_data/utils.py, and `get_children_stats` of pootle_data/directory_data.py.
-- Accounts/Site: the tables and queries of accounts/utils.py; Accounts/Merge: `UserMerger`;
-- Accounts/Reverts and Accounts/Purge: `UserPurger`; Accounts/Raise: the exceptions that end a
-- purge; Accounts/Rows: updates of rows; Accounts/Emails: `verify_user` and
-- `update_user_email`, and of accounts/models.py `User.save` and `User.sync_email`.
-- The modules named Tests run the theorems at small data.
--
-- How the code is read. A queryset is a filter of the list of the table's rows, in the table's
-- order; `exclude` keeps rows whose column is NULL, as Django documents. Whether
-- `exclude(last_sync_revision=F("max_revision"))` keeps a row whose maximum is NULL is the field
-- `keeps_null` of `Config`. The path matcher, `fnmatch` and the database's regular expressions
-- are functions of `Config`. A file is its modification time, found by its path below the
-- project's directory. The order of a Python set is a function that `unstage` takes. What the
-- translate toolkit's units return is the record `FileUnit`; a unit object counts as true.
--
-- The opcodes of Python's `difflib` are the field `opcodes` of `StoreDiff`, a function of the two
-- lists of keys; a `replace` has units on both sides. Sets of keys are lists. The locations of a
-- unit have no empty lines. The unit of the source, the unit at the last synchronisation and the
-- last submitter are functions of `Sources`.
--
-- The interface `DiskUnits` stands for the toolkit's units of a file that a store is written to; a
-- set of ids is a list.
--
-- The interface `Transfer` stands for what files.py calls to update a store and to write a file,
-- and for the key and the language of a new store; where the source raises an error for a missing
-- row, the row is passed over. The path of a new store has a valid language and extension.
--
-- Times, dates and users are numbers. The day of a time is a function, as are the users that
-- count as META_USERS. Scores are counted in hundredths, to which the code rounds; words are
-- counted whole. A suggestion that is not pending has a reviewer and a time of review. An update
-- of scores sees the rows of its store, which are those that `find_existing_scores` looks for, or
-- more: one that has no score is left as it is.
--
-- A quality check is its name and its category in pootle_data, and its name in pootle_checks,
-- where the filters of a checker and its `run_filters` are the translate toolkit's. NULL is
-- none. The rows that a page adds up carry the child that they belong to, and a unit's time of
-- creation is a function of its key. An update of data is of all fields. The changes of the
-- checks' table that are sent in bulk are made one after the other; no unit is in two of them.
--
-- In accounts a submission has its value both as a text and as the state that it names; users are
-- numbers; the states of suggestions are pending or not. No submission is without a unit, nor a
-- change of a unit without one. A set of stores is a list. What a purge does to the tables is done
-- even if it then ends with an exception, and the model gives the exception only. The lookup
-- `iexact`, `validate_email` and allauth's `sync_user_email_addresses` are functions; that the
-- database keeps the addresses of allauth unique is not modelled.
--
-- Batch reads a query from a state that its calls of the database change. Its loop runs on fuel,
-- one turn more than the query has rows at first, and running out gives none; each turn counts
-- the batch size, so the fuel is enough where that is positive. No other loop needs fuel: each
-- runs over a list.
--
-- Not modelled: the caches of the state and of the resources, the parsing and writing of files,
-- the remote of the file system, the saving of units (authors, times, quality checks), the
-- filters of the quality checks, permissions, signals and text logs, and the web interface.
pub mod Base
pub mod Core
pub mod Project
pub mod Score
pub mod Store
pub mod Fs
pub mod Data
pub mod Accounts
pub mod Quality
