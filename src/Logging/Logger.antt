-- ===== src/Logging/Logger.antt =====
-- src/logging/log_sink.cpp and logger.cpp. A logger holds shared pointers to sinks: handles into the
-- sinks that there are, so that one sink may be registered twice.
use lddm.Base.{
  ℕ, Bool, true, false, List, [], ◌∷◌, ◌++◌, Option, none, some, ◌==◌, leb, length, if◌then◌else◌,
}
use lddm.Text.{Text}
use lddm.Logging.Level.{LogLevel, trace, debug, info, warn, error, fatal, off}
use lddm.Logging.Message.{LogMessage, format}

-- What a stream was given, and what of it is not yet flushed.
pub record Stream : Type 0 where
  pub flushed : Text
  pub pending : Text

-- A stream that is colorized or not, a file that is open or not, and a memory.
pub data Sink : Type 0 where
  stream_sink : Bool → Stream → Sink
  file_sink : Bool → Stream → Sink
  memory_sink : List LogMessage → Sink

-- The values of the enumeration.
abbrev pub level_number : LogLevel → ℕ
level_number trace = 0
level_number debug = 1
level_number info = 2
level_number warn = 3
level_number error = 4
level_number fatal = 5
level_number off = 6

abbrev pub flush_stream : Stream → Stream
flush_stream s = record { flushed = s.flushed ++ s.pending; pending = [] }

-- A line, flushed from WARN on.
abbrev pub write_line : Bool → LogMessage → Stream → Stream
write_line colorize m s =
    let s' : Stream = record s { pending = s.pending ++ (format colorize m ++ 10 ∷ []) } in
    if leb (level_number warn) (level_number m.level) then flush_stream s' else s'

-- `write` of the three sinks.
unfoldable pub write : LogMessage → Sink → Sink
write m (stream_sink colorize s) = stream_sink colorize (write_line colorize m s)
write m (file_sink true s) = file_sink true (write_line false m s)
write m (file_sink false s) = file_sink false s
write m (memory_sink ms) = memory_sink (ms ++ m ∷ [])

-- `flush` of the three sinks.
unfoldable pub flush_sink : Sink → Sink
flush_sink (stream_sink colorize s) = stream_sink colorize (flush_stream s)
flush_sink (file_sink true s) = file_sink true (flush_stream s)
flush_sink (file_sink false s) = file_sink false s
flush_sink (memory_sink ms) = memory_sink ms

-- `MemorySink::size` and `clear`.
abbrev pub size : Sink → Option ℕ
size (memory_sink ms) = some (length ms)
size _ = none

abbrev pub clear : Sink → Sink
clear (memory_sink ms) = memory_sink []
clear (stream_sink colorize s) = stream_sink colorize s
clear (file_sink open_file s) = file_sink open_file s

pub record Logger : Type 0 where
  pub level : LogLevel
  pub sinks : List ℕ

-- The constructor: one sink, for std::clog, under the handle 0.
abbrev pub new_logger : Logger
new_logger = record { level = info; sinks = 0 ∷ [] }

abbrev pub Sinks : Type 0
Sinks = ℕ → Sink

abbrev pub update : (Sink → Sink) → ℕ → Sinks → Sinks
update f h sinks h' = if h' == h then f (sinks h') else sinks h'

unfoldable pub set_level : LogLevel → Logger → Logger
set_level level l = record l { level = level }

unfoldable pub should_log : LogLevel → Logger → Bool
should_log level l =
    if level_number l.level == 6 then false else leb (level_number l.level) (level_number level)

-- A null pointer is not added.
unfoldable pub add_sink : Option ℕ → Logger → Logger
add_sink none l = l
add_sink (some h) l = record l { sinks = l.sinks ++ h ∷ [] }

unfoldable pub clear_sinks : Logger → Logger
clear_sinks l = record l { sinks = [] }

abbrev pub sink_count : Logger → ℕ
sink_count l = length l.sinks

abbrev pub each : (Sink → Sink) → List ℕ → Sinks → Sinks
each f [] sinks = sinks
each f (h ∷ hs) sinks = each f hs (update f h sinks)

unfoldable pub log : LogMessage → Logger → Sinks → Sinks
unfolding should_log write
log m l sinks = if should_log m.level l then each (write m) l.sinks sinks else sinks

unfoldable pub flush : Logger → Sinks → Sinks
unfolding flush_sink
flush l sinks = each flush_sink l.sinks sinks

-- `~Logger`
unfoldable pub destroy : Logger → Sinks → Sinks
unfolding flush
destroy l sinks = flush l sinks
