-- ===== src/Lib.antt =====
-- teammate-mcp lets coding agents in several terminals send messages to each other. This library
-- models its core, the Python package under src/teammate_mcp/, and the hooks under hooks/.
--
-- The parts, and the files that model them:
-- * Registry (src/teammate_mcp/registry.py): the file that maps a label to a session. `register`,
--   `register_mailbox` and `prune_registry` are the writes of the functions of those names. The
--   rest of `unregister` and `prune_dead`, which also move mailboxes aside, is in Address.
-- * Mailbox (src/teammate_mcp/server.py, `_write_inbox`, `_move_to_processed`,
--   `_save_processed_receipt`, `archive_label_mailbox`): the directories of JSON records of a
--   label. `Home` is the registry with all mailboxes, the state that the other parts share. Work
--   and Response are the records that the worker and `reply` keep in a mailbox.
-- * Lease (src/teammate_mcp/pane_delivery.py): who may take a message out of an inbox.
-- * Codex (src/teammate_mcp/codex_transport.py, `deliver`) and Worker
--   (src/teammate_mcp/mailbox_worker.py, `deliver_record`, `scan_once`): input for a Codex thread.
--   The worker passes `deliver` the callback that records the dispatch.
-- * Channel (src/teammate_mcp/claude_channel.py): the native notifications to a Claude session.
-- * Queue (src/teammate_mcp/queue.py): the file queue of jobs, from pending to done or failed;
--   Queue/Lifecycle has the life of one job, in whole calls, as its specification, and
--   Queue/Interleaved the single writes of the calls. Elsewhere a call of the queue runs to its end.
-- * Ask and Reply (src/teammate_mcp/server.py, `_ask_async`, `reply`, `mark_processed`): an ask
--   enqueues a job and writes the recipient's inbox; a reply asks the sender back.
-- * Pane (src/teammate_mcp/server.py, the keyboard path of `_ask_async`): an ask that is typed into
--   the recipient's pane, with the user's own text cleared before it and, if that call succeeds,
--   written back.
-- * Wake (src/teammate_mcp/watcher.py, `_wake` and `_scan_once`): the watchdog types a message that
--   nobody has fetched.
-- * Iterm (src/teammate_mcp/iterm.py, `osa_extract_compose`): the text in a compose box.
-- * Alive (src/teammate_mcp/registry.py, `alive_session_ids_cached`): the cache of open panes.
-- * Locked (src/teammate_mcp/registry.py, `_exclusive_lock`): processes whose steps interleave around
--   the registry's lock. Elsewhere an operation under a lock is one step.
-- * Labels (src/teammate_mcp/server.py and session_identity.py): automatic labels, and who calls.
--   Labels/Panes is the registration of a pane (`register_self`, `auto_register_session`,
--   `_auto_register_from_env`, and `register-pane` of src/teammate_mcp/cli.py).
-- * Spawning (src/teammate_mcp/cli.py): the ledger of `spawn`, the placement of the next pane, and
--   in Spawning/Commands `close-pane` and `despawn`.
-- * Replies (src/teammate_mcp/cli.py): `next-reply`, and the label that `drain` and `inbox` read.
-- * Arguments (src/teammate_mcp/cli.py): the arguments of `ask`.
-- * Screen (src/teammate_mcp/watcher.py and server.py): what a pane's screen says.
-- * Settings (src/teammate_mcp/server.py): `retry_delivery`, `configure_mailbox_delivery` and
--   `register_mailbox`, by which a session manages its own address.
-- * StopHook (hooks/stop_inbox_drain.py): pending messages handed over at the end of a turn.
-- * PromptHook (hooks/user_prompt_submit_inbox_drain.py): pending messages attached to a prompt.
-- * Watch (src/teammate_mcp/watcher.py): the watchdog's health and restart.
-- * Spawned (src/teammate_mcp/spawn_track.py): the ledger of opened panes.
-- * Daemon (src/teammate_mcp/daemon.py): requests to the registry, one at a time.
-- Base holds numbers, lists, texts and dicts; Tests holds concrete data and runs.
--
-- The clock, process probes, locks, the file system's answers and the app-server are parameters.
-- Other processes act between two steps of a function through functions on the state, such as
-- `meanwhile` of an attempt or of a pane's registration. Operations under a lock are one step; Locked says why. Times are
-- milliseconds.
--
-- Fuel: `first_free` gets the number of labels in use, and one of that many and one candidates is
-- free; `width` gets the number itself, which has no more digits than that. `strip_ansi` gets the
-- length of the text, of which each step takes a character.
--
-- Not modelled: JSON text and files that do not parse; sockets, processes, logs, AppleScript, and
-- the rest of the command line; the hook block_infinite_poll; the endless loops of the watchdog,
-- the worker and the channel around one pass; letters outside ASCII where case is folded.
pub mod Base
pub mod Registry
pub mod Work
pub mod Response
pub mod Mailbox
pub mod Lease
pub mod Address
pub mod Codex
pub mod Worker
pub mod Queue
pub mod Ask
pub mod Reply
pub mod Channel
pub mod Labels
pub mod Screen
pub mod Daemon
pub mod Pane
pub mod Wake
pub mod StopHook
pub mod PromptHook
pub mod Settings
pub mod Spawned
pub mod Watch
pub mod Spawning
pub mod Replies
pub mod Arguments
pub mod Locked
pub mod Alive
pub mod Iterm
pub mod Tests
