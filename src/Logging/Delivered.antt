-- ===== src/Logging/Delivered.antt =====
-- What a memory sink receives, and what is left unflushed.
use lddm.Base.{
  ℕ, zero, suc, List, [], ◌∷◌, ◌++◌, Option, ◌≡◌, refl, sym, arith, ◌==◌, if◌then◌else◌, Bool-cases,
  inl, inr,
}
use mathlib.Core.List.{append_assoc, append-nil}
use lddm.Logging.Level.{LogLevel}
use lddm.Logging.Message.{LogMessage}
use lddm.Logging.Logger.{
  memory_sink, Logger, Sinks, each, update, write, flush_sink, set_level, should_log, add_sink,
  clear_sinks, log, flush,
}

-- What is asked of a logger.
pub data Call : Type 0 where
  level_set : LogLevel → Call
  sink_added : Option ℕ → Call
  sinks_cleared : Call
  message_logged : LogMessage → Call
  flushed : Call

unfoldable pub serve : List Call → Logger → Sinks → Sinks
serve [] l sinks = sinks
serve (level_set level ∷ cs) l sinks = serve cs (set_level level l) sinks
serve (sink_added h ∷ cs) l sinks = serve cs (add_sink h l) sinks
serve (sinks_cleared ∷ cs) l sinks = serve cs (clear_sinks l) sinks
serve (message_logged m ∷ cs) l sinks = serve cs l (log m l sinks)
serve (flushed ∷ cs) l sinks = serve cs l (flush l sinks)

-- How often a sink is registered, and a message as often.
abbrev pub times : ℕ → List ℕ → ℕ
times h [] = 0
times h (h' ∷ hs) = let others = times h hs in if h == h' then suc others else others

abbrev pub copies : ℕ → LogMessage → List LogMessage
copies zero m = []
copies (suc n) m = m ∷ copies n m

-- What a sink is to receive: each message that is logged while the level lets it through, as often as
-- the sink is registered at that time.
abbrev pub due : ℕ → List Call → Logger → List LogMessage
due h [] l = []
due h (level_set level ∷ cs) l = due h cs (set_level level l)
due h (sink_added h' ∷ cs) l = due h cs (add_sink h' l)
due h (sinks_cleared ∷ cs) l = due h cs (clear_sinks l)
due h (message_logged m ∷ cs) l =
    (if should_log m.level l then copies (times h l.sinks) m else []) ++ due h cs l
due h (flushed ∷ cs) l = due h cs l

module _ (h : ℕ) where
  each-write :
      (m : LogMessage) (hs : List ℕ) (sinks : Sinks) (ms : List LogMessage)
      → sinks h ≡ memory_sink ms
      → each (write m) hs sinks h ≡ memory_sink (ms ++ copies (times h hs) m)
  unfolding write
  each-write m [] sinks ms e = rw append-nil e
  each-write m (h' ∷ hs) sinks ms e = elim (Bool-cases (h == h')) [
    | inl same ↦ rw same (
        rw (sym (append_assoc ms (m ∷ []) (copies (times h hs) m)))
          (each-write m hs (update (write m) h' sinks) (ms ++ m ∷ []) (rw same (rw e refl))))
    | inr other ↦ rw other (each-write m hs (update (write m) h' sinks) ms (rw other e))
  ]

  each-flush_sink :
      (hs : List ℕ) (sinks : Sinks) (ms : List LogMessage)
      → sinks h ≡ memory_sink ms
      → each flush_sink hs sinks h ≡ memory_sink ms
  unfolding flush_sink
  each-flush_sink [] sinks ms e = e
  each-flush_sink (h' ∷ hs) sinks ms e =
      each-flush_sink hs (update flush_sink h' sinks) ms (ground arith)

  log-memory :
      (m : LogMessage) (l : Logger) (sinks : Sinks) (ms : List LogMessage)
      → sinks h ≡ memory_sink ms
      → log m l sinks h
        ≡ memory_sink (ms ++ (if should_log m.level l then copies (times h l.sinks) m else []))
  unfolding log
  log-memory m l sinks ms e = elim (Bool-cases (should_log m.level l)) [
    | inl pass ↦ rw pass (each-write m l.sinks sinks ms e)
    | inr stop ↦ rw stop (rw append-nil e)
  ]

  -- Whatever is asked of a logger, a memory sink receives the messages that are due to it, in order.
  pub serve-due :
      (cs : List Call) (l : Logger) (sinks : Sinks) (ms : List LogMessage)
      → sinks h ≡ memory_sink ms
      → serve cs l sinks h ≡ memory_sink (ms ++ due h cs l)
  unfolding serve
  serve-due [] l sinks ms e = rw append-nil e
  serve-due (level_set level ∷ cs) l sinks ms e = serve-due cs (set_level level l) sinks ms e
  serve-due (sink_added h' ∷ cs) l sinks ms e = serve-due cs (add_sink h' l) sinks ms e
  serve-due (sinks_cleared ∷ cs) l sinks ms e = serve-due cs (clear_sinks l) sinks ms e
  serve-due (message_logged m ∷ cs) l sinks ms e =
      let sent = if should_log m.level l then copies (times h l.sinks) m else [] in
      rw (sym (append_assoc ms sent (due h cs l)))
        (serve-due cs l (log m l sinks) (ms ++ sent) (log-memory m l sinks ms e))
  serve-due (flushed ∷ cs) l sinks ms e =
      serve-due cs l (flush l sinks) ms (unfold flush in each-flush_sink l.sinks sinks ms e)
