-- ===== src/Lib.antt =====
-- LDDM, a display manager for a Linux desktop on Weston and LDDE: its sessions, its supervised
-- processes and its recovery.
--
-- A session (src/session/session.cpp) owns a state machine, a process supervisor, and the components
-- attached to it: the Weston manager (the compositor) and the LDDE manager (the desktop). Each manager
-- prepares files, asks the supervisor to start its process, waits until the process is ready, and stops
-- it. The supervisor keeps a registry of process objects and reaps those that exit, and its listeners
-- are told. The recovery manager restarts a component or the whole session, at most so many times within
-- a sliding window, or fails the session. The program (src/main.cpp) reads its command line and its
-- configuration, creates one session through the session manager, attaches the managers to it, and reaps
-- processes until a signal asks it to end.
--
-- Which file models which part:
--   Core/Error           include/lddm/core/error.hpp, result.hpp: errors are compared by category and code
--   Core/Names           src/core/error.cpp: errors as texts
--   Core/Lifecycle       src/core/lifecycle.cpp: the generic state machine
--   Platform             the system calls, and platform::wait_process of src/platform/process.cpp
--   Platform/Poll        the polling loops with a deadline
--   Platform/Spawn       platform::spawn_process of src/platform/process.cpp, call by call
--   Platform/Kill        send_signal and is_process_alive of src/platform/process.cpp
--   Platform/SearchPath  the search of $PATH for an executable
--   Platform/ProcStat    is_process_dead_or_zombie of src/weston/weston_readiness.cpp
--   Platform/UniqueFd    src/platform/unique_fd.cpp
--   Platform/Paths       src/platform/paths.cpp and environment.cpp
--   Platform/Clock       src/platform/clock.cpp
--   Process/Types, Spec  src/process/process_types.cpp, process_spec.cpp
--   Process/Object       src/process/process.cpp: one process (its state in Process/Object/State)
--   Process/Registry     src/process/process_registry.cpp
--   Process/Supervisor   src/process/process_supervisor.cpp
--   Process/Environment  the environment that src/process/process.cpp starts a process with
--   Process/Diagnostics  src/process/process_diagnostics.cpp
--   Weston, Ldde         src/weston, src/ldde: Types, Readiness, Manager (the state), Prepare (initialize
--                        and prepare) and Run (start, stop, events, reset); Config (the whole
--                        configuration, and the command line), Executable, Diagnostics, and
--                        Ldde/Environment (what the desktop reads in its environment)
--   Names                the states, policies and reasons as texts
--   Session/State        src/session/session_state.cpp
--   Session/World        the state of src/session/session.cpp and of what it owns
--   Session/Components   the calls that a session makes on its components
--   Session/Operations   initialize, prepare, start, stop, fail and cleanup of src/session/session.cpp
--   Session/Config       src/session/session_config.cpp, session_paths.cpp
--   Session/Paths        the directories of src/session/session_paths.cpp, and session_id.cpp
--   Session/Diagnostics  src/session/session_diagnostics.cpp
--   Session/Resource     src/session/session_resource.cpp
--   Session/Environment  src/session/session_environment.cpp
--   Session/Manager      src/session/session_manager.cpp, and in Spec what it is to its clients
--   Recovery             src/recovery: Config, Diagnostics, Manager (the state, the window, the policy),
--                        Clean (stale files), Restart (the three ways to recover), Recover (recover)
--                        and Events (reaping, with all who listen)
--   Config               src/config: Types, Lines, Values and Parser (config_parser.cpp), Validator,
--                        Manager (config.cpp), Migrator and Migrator/File (config_migrator.cpp); Writer
--                        is a reference writer for what the parser reads
--   Logging              src/logging: Level, Message, and Logger with the sinks
--   Platform/Signals     src/platform/signal_handler.cpp
--   Program              src/main.cpp: Args (the command line), Settings (what is made of a configuration),
--                        Run (the daemon) and Main (the modes)
--   Text                 lists of bytes: trimming and lines, Numbers (std::stoul), Decimal, Words, Map
--                        (std::unordered_map)
--   beside these         Process/Object/Calls and Stop, Process/Registry/Laws, Process/Supervisor/Shutdown
--                        and Once, Weston/Outcomes, Ldde/Outcomes and ReadyFile, Session/State/History,
--                        Session/Outcomes, Started and Shutdown, Session/Manager/Relation and Refined,
--                        Session/Environment/Kept, Inherited and Redacted, Session/Resource/Released,
--                        Recovery/Settled, Kept, Window, Limit and Stranded, Config/Migrator/Version, Config/Validator/Validity,
--                        Config/Parser/Bounds, Config/Manager/Kept, Config/Writer/Entries, Written and
--                        RoundTrip, Program/Ends and Settings/Window, Text/Laws, Trim and Map/Laws,
--                        Platform/Spawn/Plan and Parent, SearchPath/Places, ProcStat/Format, UniqueFd/Ledger and
--                        Paths/Entries, Recovery/Diagnostics/History, Session/Diagnostics/Secrets,
--                        Session/Paths/Created, Logging/Delivered: properties
--   Tests                concrete inputs
--
-- The operating system is a parameter (`Os`): a function from the moment, the number of system calls made
-- so far, to what each call returns. `Sys` holds the moment and a trace of what was done, latest first.
-- An operation takes and returns the state that it changes; its status is a `Result`. Locks are left
-- out: an operation runs to its end, but for the events that other threads deliver while a manager waits
-- for readiness, which are a parameter of its `start`. Shared pointers to processes are handles into one
-- list of objects, so that a change through one pointer is seen through all.
--
-- Polling loops run on fuel: one more than the milliseconds of the timeout, and each round sleeps at
-- least one, so that with a clock that does not run backwards a loop that gives up has passed its
-- deadline. Floating point (the multiplier of the delay) is a parameter, with what IEEE 754 and the annex F of C
-- say of it as a hypothesis. Counters of the recovery diagnostics wrap at 32 bits.
--
-- The event loop of the program runs on fuel as well, one for each turn; the signals that arrive before
-- each turn are a parameter, so as many turns as it takes for one to ask for the end are enough. The
-- files that the configuration and the migrator read are a map with the system's answers. The managers
-- hold texts as strings, the parser as bytes: how one is read as the other is a parameter.
--
-- Some parts are modelled twice, once as the managers see them and once in full: the managers ask the
-- system for a spawned process, for the path of an executable, for the death of a process and for a
-- directory by one call each, and Platform/Spawn, Weston/Executable, Ldde/Executable, Platform/ProcStat
-- and Session/Paths have what such a call does.
--
-- Not modelled: the messages of errors, the destructors of the managers, packaging.
pub mod Base
pub mod Core
pub mod Logging
pub mod Config
pub mod Session
pub mod Process
pub mod Weston
pub mod Ldde
pub mod Names
pub mod Platform
pub mod Text
pub mod Program
pub mod Recovery
pub mod Tests
