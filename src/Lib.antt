-- ===== src/Lib.antt =====
-- discord-copilot-sdk: the durable and the deciding parts of the bot, in `src/core` and
-- `src/platforms/discord` of the repository.
--
-- The program binds Discord threads to Copilot sessions. Its host (src/app.ts) keeps one actor
-- for a live thread and delegates what must survive a restart, or must be decided the same way
-- everywhere, to small components. This library models those components:
--
-- SessionStore (src/core/session-store.ts): the records of threads. SessionStore.Record has the
-- types, SessionStore.File the JSON format with `readRecords` and `asRecord` and the migrations
-- of versions 1 to 4, SessionStore.State the state, `load` and `mutate`, SessionStore.Ops the
-- methods, SessionStore.Fallback `restoreIfCurrent` and `reconcileFallbackPrimary`.
-- SessionStore.Commands gives the calls as data, and the worlds that they reach. A world is the
-- store in memory with the content of its file; a method is a function of the world that also
-- returns the method's result.
--
-- ChannelRegistry (src/core/channel-registry.ts): the enabled channels, in the same style, with
-- the strict reader in ChannelRegistry.File. Disk is the atomic write that both files share
-- (`write`, `renameWithRetry`), Dict is a JavaScript Map in insertion order, and Json has the
-- values of JSON with the accessors of the readers.
--
-- Lifecycle (src/core/lifecycle-ownership.ts): who may let go of the instance lock. A call is cut
-- at its awaits, each part is one function on the state of the class Ownership, and
-- Lifecycle.Events has the calls, the ends of bodies and the answers of foreign promises as
-- events, in any order.
--
-- SingleInstance (src/core/single-instance.ts): the lock file of an instance. Processes interleave
-- at every call of the system; a step is one call, and a file keeps who created it, since the pid
-- is written to the file that the process has open. SingleInstance.Alone is the acquisition of one
-- process, SingleInstance.Exclusive that of many.
--
-- StartupReady (src/core/startup-ready.ts): the files that tell a launcher that its process is
-- ready, with the names of the files as data and the directory as a map. In a removal, others act
-- between the calls of the file system.
--
-- Resume (src/core/reconciliation-engine.ts): the attempt to resume one record. Resume.Host is what
-- the engine and the host share (the session store, the ownership, the live sessions and the
-- leases), Resume.Attempt is `resumeRecord` and `discardResumedActor`, Resume.Record is
-- `reconcileRecord`. At each await the host is given back as others left it, by any function, and
-- the acts of an attempt are kept in a log. Retry (the same file) is the loop that wakes up to
-- retry, Leases (the same file and src/app.ts) the leases of checkouts and their pre-scan.
--
-- ChannelCommand (src/platforms/discord/channel-command.ts): `/channel`, in the style of Resume, over
-- the registry, the session store and the ownership. ChannelCommand.Target is the audit of the
-- channel, with `fetchChannelSafe` of src/platforms/discord/channel-fetch.ts, and
-- ChannelCommand.Reference reads the option of the command.
--
-- RenderChunks (src/platforms/discord/render-chunks.ts): `renderChunks`, which keeps the messages of
-- a turn in step with its chunks, with the answers of Discord given.
--
-- Broker (src/core/broker.ts): the prompts that wait for a decision. Broker.Once has its events.
-- Reconcile (src/core/reconcile.ts): what a restart does with a record. Access
-- (src/platforms/discord/auth.ts): who may act, and where. Approval
-- (src/core/approval-policy.ts): the commands that are approved without a prompt; the
-- normalization of a name is a parameter. Binding (src/core/binding.ts): the proof that a
-- directory belongs to the repository that it claims. Chunk (src/core/chunk.ts) cuts long text.
-- ThreadName (src/core/thread-name.ts) cuts a title. Effort (src/core/effort.ts): the efforts of
-- a model. CustomId (src/platforms/discord/custom-id.ts): the ids of buttons, with Decimal for
-- the numbers in them.
--
-- TurnRender (src/core/turn-render.ts): the timeline of a turn. TurnRender.Items has the items,
-- which the timeline and the maps share, as objects of a heap that are named by numbers,
-- TurnRender.Ops the methods on the events of a session, TurnRender.Status those on audits,
-- notices and todos, and TurnRender.Carry `inFlightTools`. An optional text or list, where the
-- code tests for its length, stands as empty when it is absent. Texts here and in CustomId are
-- lists of UTF-16 code units. Of `state`, the items and the texts of the answer are modelled.
--
-- Numbers of the program are integers: a fractional number, which the program does not write to
-- its state files, is not modelled. `Number.isSafeInteger` is a bound by 2^53 - 1,
-- and `nextGeneration` rounds as a double does (`suc_ℤ` of Base.Int). The clock is
-- read once in a method (`now` of Io), also where the source reads it twice. What the file system
-- answers to a write (whether the directory and the temporary file were made, and each attempt of
-- the rename) is an argument of the write; the text of JSON, which `JSON.stringify` writes and
-- `JSON.parse` reads back, is not modelled, and the file holds the value itself. A random nonce
-- is an argument. The text of `staleRebindKey` is modelled by the three values that it is made
-- of. Texts that are only shown, such as `corruptReason` and the message of a refused effort, are
-- not modelled.
--
-- Loops are structural recursion, but for the loop of `chunkText`, which has as fuel one more
-- than the length of the text: every round cuts at least one code unit off, so that the fuel is
-- enough. Lifecycle.Drained has as fuel the size of what is open, which every end makes smaller, and
-- SingleInstance.Alone seven steps, the longest way through the two attempts.
--
-- Not modelled: the host and its actors, the Discord transport, git and the worktrees, the secure
-- opening of directories, and the formatting of the timeline; of the commands, only `/channel` is
-- modelled.
mod Base
pub mod Dict
pub mod Json
pub mod Disk
pub mod SessionStore
pub mod Reconcile
pub mod RenderChunks
pub mod Broker
pub mod ChannelCommand
pub mod Chunk
pub mod Access
pub mod ChannelRegistry
pub mod Effort
pub mod Approval
pub mod Binding
pub mod ThreadName
pub mod Lifecycle
pub mod Leases
pub mod Resume
pub mod Retry
pub mod SingleInstance
pub mod StartupReady
pub mod TurnRender
pub mod Decimal
pub mod CustomId
mod Tests
