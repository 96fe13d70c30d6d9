-- ===== src/Lib.antt =====
-- Verification of the collaboration core of Syncode, a shared code editor. Replicas of a project
-- hold the text of each file as a sequence CRDT and the file tree as a register CRDT; the clients
-- exchange operations through a server that relays them.
--
-- Which file models which part (paths from the repository's root):
--   Crdt/Id.antt           client/src/crdt/CrdtId.ts: ids, their order, their printed key
--                          (compareCrdtIds is compare_crdt_ids, crdtIdToString crdt_id_to_string)
--   Crdt/Document.antt     client/src/crdt/CrdtDocument.ts and CrdtChar.ts: the text document. The
--                          document is a record (site_id, clock, chars); a method is a function that
--                          returns the new record, with the operation it broadcasts. The loop of
--                          insertChar is `scan`, on the characters from the start position on.
--     Document/Forest      a forest of characters whose preorder is the list of characters, and the
--                          scan as insertion of a node (Scan, Refine, Within, Plant)
--     Document/Deletion, Convergence, Local, Invariant, Gone, Snapshot, Text
--                          deletion as a change of one mark, delivery in different orders, local
--                          operations, the invariant, merges of snapshots, documents from a text
--   Crdt/Tree/Op.antt      client/src/crdt/ProjectTree.ts: the operations on the file tree, and
--                          their validation (cloneOperation is clone_operation)
--   Crdt/Tree/Registers, Visible, Compact, Class
--                          the same file: buildRegisters, the visible tree (getEntries), the
--                          compaction of a snapshot, and the class with its state (site_id, clock,
--                          operations). A method returns the state with a Result, since a method
--                          that throws may have changed the state before.
--     Tree/Registers/Order, Tree/Class/Laws
--                          order independence, and what the operations do
--   Crdt/Pending.antt      client/src/crdt/PendingBuffer.ts: a record with its document and the two
--                          maps. The loops of drain are functions of their own (drain_deletes,
--                          drain_inserts) that take the recursive call.
--     Pending/Run, Waiting, Settles, Drain, Process, Eventual
--                          deliveries with a rest, the maps, and the proof that all is integrated
--     Pending/Rounds       processPending; Rounds/Shrinks and Rounds/Ends are about its end
--     Tree/Visible/Walks, Parents, Climbs, Acyclic
--                          the walks of the visible tree, and what its parents are
--   Crdt/Cursor.antt       client/src/crdt/CursorAnchor.ts: anchors of cursors and selections
--     Cursor/Lines         the lines and columns of a text
--     Cursor/Resolve       anchors resolved in the document that they were made in
--   Project/Path.antt      client/src/import/pathSafety.ts (normalizeImportPath) and
--                          client/src/crdt/projectPathRules.ts (isSharedProjectPath); Path/Safe has
--                          what they accept
--   Project/Entry.antt     getProjectEntryPath of projectPathRules.ts
--   Project/Ignore.antt    client/src/import/ignoreRules.ts; Ignore/First is about the ignored
--                          directory of a path
--   Provider/Replace.antt  replaceFileContent of client/src/providers/SignalRCrdtProvider.ts, with
--                          its common prefix and suffix; Replace/Places and
--                          Replace/Edits are about the text after it
--   Editor/Groups.antt     client/src/components/editor/editorGroups.ts; Groups/Steps has what any
--                          operations keep, Groups/Remove is about a removal
--   Editor/History.antt    the rows of client/src/components/editor/scmHistoryGraph.ts; History/Lanes
--                          is about the lane of a commit, History/Width about the graph's width
--   Crdt/Offline.antt      client/src/crdt/offlineTextOpQueue.ts, with sendOp and
--                          replayOfflineTextOps of SignalRCrdtProvider.ts; Offline/Listed
--                          and Offline/Replay are about what a replay sends and leaves
--   Editor/Layout.antt     getEntryPath of client/src/components/editor/editorLayoutStorage.ts
--   Editor/Search.antt     client/src/components/editor/workspaceSearch.ts; Search/Found has the
--                          matches, Search/Grouped their groups, Search/Parts a highlighted line
--   Project/Import.antt    client/src/import/folderImport.ts; Import/Offered is about an inspection,
--                          Import/Selected about the reading of the selected files, Import/Limits
--                          about what is prepared
--   Crdt/Compression.antt  compressCrdtSnapshot of client/src/crdt/snapshotCompression.ts
--   Base                   texts as lists of UTF-16 code units, lists indexed by native numbers,
--                          JavaScript maps as association lists in insertion order
--
-- Numbers. Counters are natural numbers of any size; the bound of Number.isSafeInteger is a test of
-- validate_id. Local clocks of the text document have no bound in the source.
--
-- Fuel. The walks up the file tree (below_deleted, follow) take the number of parents plus two: each
-- round meets an entry that it has not met. The digits of a counter
-- take one more than the counter.
-- `drain` takes one more than the number of keys under which insertions wait: each nested call has
-- removed a key. Digits aside, the results on `drain` and on the walks say that the fuel is enough.
-- process_pending takes one more than the number of operations that wait.
-- The walk of an entry's path takes one more than the number of entries.
-- The editor's walk of a path takes the same fuel; the source does not return on a cycle of
-- folders, where a path, and a search that needs it, is `none`.
--
-- Not modelled: JSON texts (a snapshot is the value they carry), toLowerCase (a parameter), React
-- components and hooks, the SignalR connection, storage in the browser, the C# server, the
-- execution service, and deployment.
pub mod Base
pub mod Crdt
pub mod Editor
pub mod Project
pub mod Provider
