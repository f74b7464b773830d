-- ===== src/Logging/Delivery.antt =====
-- What becomes of the messages of src/logging/logging.c.
use bctoolbox.Common.{
  ℕ, ◌≡◌, ◌≢◌, refl, ap, ◌∙◌, inl, inr, Bool, true, false, not, ◌&&◌, Option, List, [], ◌∷◌, ◌++◌,
  arith, ◌==◌, if◌then◌else◌, Bool-cases, append-nil, append_assoc, ne→==,
}
use bctoolbox.Logging.{Bytes, Level, Stored, Logger, log_level_enabled, get_log_domain}
use bctoolbox.Logging.Messages.{
  is_fatal, calls_direct, calls_of_all, logv_flush, has_handlers, dispatch, logv,
}

-- A message, before it is logged.
pub record Message (Args : Type 0) : Type 0 where
  pub domain : Option Bytes
  pub level : Level
  pub fmt : Bytes
  pub args : Args

module _ {Args : Type 0} (vprintf : Bytes → Args → Bytes) (no_args : Args) where
  -- A thread that logs messages one by one.
  unfoldable pub log_all : (self : ℕ) → List (Message Args) → Logger Args → Logger Args
  log_all self [] lg = lg
  log_all self (e ∷ es) lg =
      log_all self es (logv vprintf no_args self e.domain e.level e.fmt e.args lg)

  abbrev pub none_fatal : List (Message Args) → Bool
  none_fatal [] = true
  none_fatal (e ∷ es) = not (is_fatal e.level) && none_fatal es

  -- Those that are enabled, as they are stored.
  unfoldable pub enabled : Logger Args → (self : ℕ) → List (Message Args) → List Stored
  enabled lg self [] = []
  enabled lg self (e ∷ es) =
      (if log_level_enabled lg self e.domain e.level
        then record { domain = e.domain; level = e.level; msg = vprintf e.fmt e.args } ∷ []
        else [])
      ++ enabled lg self es

  logv-stores :
      (self : ℕ) (e : Message Args) (lg : Logger Args)
      → has_handlers vprintf no_args lg ≡ true
      → lg.log_thread_id ≢ 0
      → lg.log_thread_id ≢ self
      → is_fatal e.level ≡ false
      → logv vprintf no_args self e.domain e.level e.fmt e.args lg
        ≡ record lg { stored = lg.stored ++ enabled lg self (e ∷ []) }
  unfolding logv dispatch enabled
  logv-stores self e lg some_handler set other calm =
      elim (Bool-cases (log_level_enabled lg self e.domain e.level)) [
        | inl on ↦
            rw
              (
                some_handler,
                on,
                ne→== lg.log_thread_id 0 set,
                ne→== lg.log_thread_id self other,
                calm,
              )
              refl
        | inr off ↦ rw (some_handler, off, calm, append-nil lg.stored) refl
      ]

  enabled_after :
      (self other : ℕ) (es : List (Message Args)) (lg : Logger Args) (waiting : List Stored)
      → enabled (record lg { stored = waiting }) self es ≡ enabled lg self es
  unfolding enabled log_level_enabled get_log_domain
  enabled_after self other [] lg waiting = refl
  enabled_after self other (e ∷ es) lg waiting = rw (enabled_after self other es lg waiting) refl

  log_all-stores :
      (self : ℕ) (es : List (Message Args)) (lg : Logger Args)
      → has_handlers vprintf no_args lg ≡ true
      → lg.log_thread_id ≢ 0
      → lg.log_thread_id ≢ self
      → none_fatal es ≡ true
      → log_all self es lg ≡ record lg { stored = lg.stored ++ enabled lg self es }
  unfolding log_all enabled
  log_all-stores self [] lg some_handler set other calm = rw (append-nil lg.stored) refl
  log_all-stores self (e ∷ es) lg some_handler set other calm =
      let now : is_fatal e.level ≡ false = ground arith in
      let later : none_fatal es ≡ true = ground arith in
      let one : List Stored =
        if log_level_enabled lg self e.domain e.level
        then record { domain = e.domain; level = e.level; msg = vprintf e.fmt e.args } ∷ []
        else [] in
      let kept = lg.stored ++ enabled lg self (e ∷ []) in
      ap (log_all self es) (logv-stores self e lg some_handler set other now)
      ∙ log_all-stores self es (record lg { stored = kept }) some_handler set other later
      ∙ ap (λ s. record lg { stored = kept ++ s }) (enabled_after self self es lg kept)
      ∙ ap (λ s. record lg { stored = s })
          (ap (λ s. lg.stored ++ s ++ enabled lg self es) (append-nil one)
            ∙ append_assoc lg.stored one (enabled lg self es))

  -- Messages that a thread other than the log thread logs while handlers are there are delivered by
  -- the next message of the log thread, if that is enabled: each enabled one once, to every
  -- handler, in the order in which they were logged and behind those that waited before; then the
  -- log thread's own message goes to the handlers that take its domain, and nothing waits any more.
  -- None of the messages is fatal.
  pub logv-order :
      (self : ℕ) (es : List (Message Args)) (e : Message Args) (lg : Logger Args)
      → has_handlers vprintf no_args lg ≡ true
      → lg.log_thread_id ≢ 0
      → lg.log_thread_id ≢ self
      → none_fatal (e ∷ es) ≡ true
      → log_level_enabled lg lg.log_thread_id e.domain e.level ≡ true
      → logv vprintf no_args lg.log_thread_id e.domain e.level e.fmt e.args (log_all self es lg)
        ≡ record lg {
          stored = [];
          calls =
              lg.calls
              ++ calls_of_all vprintf no_args lg.handlers (lg.stored ++ enabled lg self es)
              ++ calls_direct vprintf no_args lg.handlers e.domain e.level e.fmt e.args;
        }
  unfolding logv dispatch logv_flush log_level_enabled get_log_domain
  logv-order self es e lg some_handler set other calm on =
      let now : is_fatal e.level ≡ false = ground arith in
      let later : none_fatal es ≡ true = ground arith in
      let self_id : (lg.log_thread_id == lg.log_thread_id) ≡ true = ground arith in
      rw (log_all-stores self es lg some_handler set other later)
        (rw (some_handler, on, ne→== lg.log_thread_id 0 set, self_id, now) refl)
