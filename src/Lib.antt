-- ===== src/Lib.antt =====
-- GLaDOS: a home voice assistant, in Python. A chat turn is routed to a device command or to a
-- language model; around the turn stand the memory of the conversation, the rules that react to
-- Home Assistant's events, the accounts of the WebUI, and the background tasks of the autonomy
-- loop. This library models the parts that keep state and decide.
--
-- The parts, and the files that model them:
-- - SessionMemory.antt: glados/core/session_memory.py, the recent turns of each chat session
--   (`SessionMemory`). Bounds.antt keeps its bounds, Reads.antt says what a reader sees.
-- - Events.antt: glados/events, the rules on state changes. Config.antt is the schema of the file
--   of rules with its validators (config.py), Action.antt the call of a service of Home Assistant
--   (actions/ha_action.py), Decision.antt the verdict of the language model (decision.py), State.antt
--   and Router.antt the `EventRouter` (router.py): `gate` is the first half of `_gate_and_run`,
--   `execute` is `_execute`, and `load`, `handle_state_changed` and `run_rule` are the methods. Router/Gates.antt is about one gate, Router/Steps.antt about gates and
--   reloads in any order, Router/Runs.antt about what an execution does.
-- - Auth.antt: glados/auth, the token bucket of the login (RateLimit.antt, rate_limit.py), the
--   sessions (Sessions.antt, sessions.py), the counters of failed logins (UserState.antt,
--   user_state.py), and the roles of glados/webui/permissions.py (Permissions.antt).
-- - Conversation.antt: Db.antt is the table of glados/core/conversation_db.py, Store.antt the
--   history in memory over it (glados/core/conversation_store.py), Compaction.antt the agent that
--   replaces old messages by a summary (glados/autonomy/agents/compaction_agent.py). The store
--   calls the database, and the agent the store.
-- - Autonomy.antt: glados/autonomy, the slots of the background tasks (slots.py), the tasks
--   that fill them (task_manager.py), the jobs that run at intervals (jobs.py), and the memory that
--   a subagent keeps in a file (Memory.antt, subagent_memory.py). Subagents.antt is the life of the
--   subagents of a manager (subagent.py, subagent_manager.py). Loop.antt is the loop that
--   turns events into prompts (loop.py), with the gate of glados/observability/priority.py.
--   Emotion.antt is the state of the emotions (emotion_state.py), Constitution.antt the bounds of the
--   behaviour and its modifiers (constitution.py), with the bridge from the emotions.
-- - Core.antt: glados/core/context.py, the sources of the context of a request (Context.antt),
--   glados/core/shutdown.py, the shutdown of the threads by priority (Shutdown.antt),
--   glados/core/store.py (KeyStore.antt) and glados/core/knowledge_store.py (Knowledge.antt), and
--   glados/core/buffered_speech_player.py (Player.antt), whose two threads share a buffer:
--   `accumulate` is a turn of the one, `player_step` a step of the other. Player/Transcript.antt is
--   about their interleavings, Player/Progress.antt about the end of a response.
-- - Commands.antt: the door for the commands to the home. Resolver.antt and its modules are
--   `CommandResolver` (glados/core/command_resolver.py), which reads and writes the session memory
--   (SessionMemory.antt), the learned context (Learned.antt, glados/core/learned_context.py) and the
--   entity cache (Ha/Cache.antt), and asks Anaphora.antt (glados/intent/anaphora.py) whether a
--   turn is a follow-up. Resolver/Steps.antt has the methods, Records.antt those that
--   record a turn, Resolve.antt `resolve`.
-- - Ha.antt: glados/ha/state_verifier.py, the watch that checks that a service call has changed the
--   states of its entities (Ha/Verifier.antt: `begin_watch` is the constructor of `Watch`,
--   `conclude` the end of `wait`; Verifier/Expected.antt: the transitions that a service call is
--   expected to cause); glados/ha/entity_cache.py, the mirror of Home Assistant's states
--   (Ha/Cache.antt) and the search for candidates in it (Cache/Scores.antt up to the ranks,
--   Cache/Candidates.antt from there).
-- - Observability.antt: glados/observability/bus.py, the bus of events (Observability/Bus.antt).
-- - Hub75.antt: glados/hub75/ddp.py, the packets of a frame of the eye display and their sender
--   (Hub75/Ddp.antt). Ddp/Receiver.antt is a display that follows the protocol.
-- - Common.antt: the shared types, Python's dictionaries, lists, texts and JSON values.
--
-- State is a record, and a method is a function that takes its arguments, the time that it reads
-- from the clock and the state, and returns its result with the state after it. A lock makes what
-- it covers one step; calls of several threads are sequences of such steps (lists of operations, or
-- the relations `Reach` and `Trace`). What an append of the conversation store, a `set` of the
-- generic store and a round of a subagent do after the lock or the test are steps of their own, with
-- those of other threads between them; `replace_all` is taken as a whole. What raises is a value: `none`, a constructor of a result type, or an
-- argument that says how a call of another part ends.
--
-- Numbers: times are ticks on ℕ, with subtraction that stops at 0 where the source's clocks do not
-- go back; counters of Python have no width, so none wraps. A fraction of a token of the rate
-- limiter is counted in parts of the window, where the source has a float; the attributes of an
-- entity, the scores of candidates, the emotions and the modifiers are counted in hundredths. Loops
-- are structural, but for the loop of `send_frame`, whose fuel is the length of the frame: each
-- round takes at least one byte, and the fuel is shown to be enough.
--
-- Parameters: the client of Home Assistant, the reply of the language model and the reader of
-- the JSON in it, the announcement, the signer of session tokens, the summary of a conversation, the
-- fuzzy matcher, the bridge to Home Assistant, the disambiguator, the persona rewriter, the ticks of
-- a subagent, Python's `float` of a text, and the case mapping and word characters of Unicode are
-- arguments. The signer is assumed to read back what it wrote, and only that.
--
-- Not modelled: the engine's threads, HTTP and websockets, the language models and their prompts,
-- speech, vision and audio, the WebUI's pages, and the SQL and files below the tables.
mod Common
pub mod SessionMemory
pub mod Events
pub mod Auth
pub mod Conversation
pub mod Autonomy
pub mod Ha
pub mod Hub75
pub mod Core
pub mod Observability
pub mod Commands
