-- ===== src/Logging/Messages.antt =====
-- src/logging/logging.c, continued: messages, which go to the handlers at once or wait for the log
-- thread. `vprintf fmt args` is the text that a format prints; `no_args` is an empty argument list.
use bctoolbox.Common.{
  ℕ, Bool, true, false, ◌&&◌, Option, none, some, List, [], ◌∷◌, ◌++◌, ◌==◌, if◌then◌else◌,
}
use bctoolbox.Logging.{
  Bytes, same_text, Level, fatal, Handler, Call, Stored, Logger, log_level_enabled,
}

abbrev pub is_fatal : Level → Bool
is_fatal fatal = true
is_fatal _ = false

-- Whether a handler takes the messages of a domain.
abbrev pub takes : Handler → Option Bytes → Bool
takes h domain = elim h.domain [
  | none ↦ true
  | some own ↦ elim domain [ none ↦ true | some name ↦ same_text own name ]
]

module _ {Args : Type 0} (vprintf : Bytes → Args → Bytes) (no_args : Args) where
  abbrev call_of : Handler → Option Bytes → Level → Bytes → Args → Call Args
  call_of h domain level fmt args = record {
    handler = h.address;
    domain = domain;
    level = level;
    fmt = fmt;
    args = args;
  }

  -- The handlers that are called with a message, in order; a flush asks none for its domain.
  abbrev pub calls_direct : List Handler → Option Bytes → Level → Bytes → Args → List (Call Args)
  calls_direct [] domain level fmt args = []
  calls_direct (h ∷ hs) domain level fmt args =
      if takes h domain
      then call_of h domain level fmt args ∷ calls_direct hs domain level fmt args
      else calls_direct hs domain level fmt args

  abbrev pub calls_stored : List Handler → Stored → List (Call Args)
  calls_stored [] l = []
  calls_stored (h ∷ hs) l = call_of h l.domain l.level l.msg no_args ∷ calls_stored hs l

  abbrev pub calls_of_all : List Handler → List Stored → List (Call Args)
  calls_of_all hs [] = []
  calls_of_all hs (l ∷ ls) = calls_stored hs l ++ calls_of_all hs ls

  unfoldable pub logv_flush : Logger Args → Logger Args
  logv_flush lg = record lg { stored = []; calls = lg.calls ++ calls_of_all lg.handlers lg.stored }

  abbrev pub deliver : Option Bytes → Level → Bytes → Args → Logger Args → Logger Args
  deliver domain level fmt args lg = record lg {
    calls = lg.calls ++ calls_direct lg.handlers domain level fmt args;
  }

  abbrev pub store : Option Bytes → Level → Bytes → Args → Logger Args → Logger Args
  store domain level fmt args lg = record lg {
    stored = lg.stored ++ record { domain = domain; level = level; msg = vprintf fmt args } ∷ [];
  }

  abbrev pub has_handlers : Logger Args → Bool
  has_handlers lg = elim lg.handlers [ [] ↦ false | h ∷ hs ↦ true ]

  -- What happens to an enabled message, by the thread that logs it.
  unfoldable pub dispatch :
      (self : ℕ) → Option Bytes → Level → Bytes → Args → Logger Args → Logger Args
  dispatch self domain level fmt args lg =
      if lg.log_thread_id == 0
      then deliver domain level fmt args lg
      else if lg.log_thread_id == self
      then deliver domain level fmt args (logv_flush lg)
      else store domain level fmt args lg

  unfoldable pub logv : (self : ℕ) → Option Bytes → Level → Bytes → Args → Logger Args → Logger Args
  logv self domain level fmt args lg =
      let after =
        if has_handlers lg && log_level_enabled lg self domain level
        then dispatch self domain level fmt args lg
        else lg in
      if is_fatal level then record (logv_flush after) { aborted = true } else after

  unfoldable pub set_log_thread_id : ℕ → Logger Args → Logger Args
  set_log_thread_id id lg = record (if id == 0 then logv_flush lg else lg) { log_thread_id = id }
