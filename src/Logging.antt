-- ===== src/Logging.antt =====
-- src/logging/logging.c: domains with their masks, handlers, and messages that other threads than the
-- log thread store. The mutexes order the threads' calls, which are modelled one by one; what a
-- handler does with a message is its own, so a call of it is only recorded, and what it
-- does when it is destroyed is left out. The keys of thread levels are not freed.
pub mod Domains
pub mod Messages
pub mod Delivery
pub mod Files
pub mod Bounded
pub mod Strings
pub mod Tags
use bctoolbox.Common.{
  ℕ, zero, suc, ◌+◌, ◌*◌, ◌/◌, ◌%◌, Bool, true, false, not, ◌&&◌, ◌||◌, Option, none, some, List,
  [], ◌∷◌, ◌++◌, leb, ◌==◌, if◌then◌else◌,
}

abbrev pub Bytes : Type 0
Bytes = List ℕ

-- `strcmp(a, b) == 0`
abbrev pub same_text : Bytes → Bytes → Bool
same_text [] [] = true
same_text (a ∷ s) (b ∷ t) = a == b && same_text s t
same_text _ _ = false

-- `BctbxLogLevel`: each level is a bit.
pub data Level : Type 0 where
  debug : Level
  trace : Level
  message : Level
  warning : Level
  error : Level
  fatal : Level

abbrev pub bit : Level → ℕ
bit debug = 1
bit trace = 2
bit message = 4
bit warning = 8
bit error = 16
bit fatal = 32

-- `mask & bit` is not 0, and `mask | bit`, for one bit.
abbrev pub has_bit : (mask b : ℕ) → Bool
has_bit mask b = mask / b % 2 == 1

abbrev pub or_bit : (mask b : ℕ) → ℕ
or_bit mask b = if has_bit mask b then mask else mask + b

-- `BctoolboxLogDomain`; the default one has no name. `thread_level` is the value that a thread has
-- at the domain's key.
pub record Domain : Type 0 where
  pub name : Option Bytes
  pub logmask : ℕ
  pub thread_level_set : Bool
  pub thread_level : (thread : ℕ) → Option ℕ

abbrev pub domain_new : Option Bytes → ℕ → Domain
domain_new name logmask = record {
  name = name;
  logmask = logmask;
  thread_level_set = false;
  thread_level = λ t. none;
}

-- `bctbx_log_handler_t`, by its address; and a message that waits.
pub record Handler : Type 0 where
  pub address : ℕ
  pub domain : Option Bytes

-- A call of a handler's function, with its format and arguments.
pub record Call (Args : Type 0) : Type 0 where
  pub handler : ℕ
  pub domain : Option Bytes
  pub level : Level
  pub fmt : Bytes
  pub args : Args

pub record Stored : Type 0 where
  pub domain : Option Bytes
  pub level : Level
  pub msg : Bytes

-- `bctbx_logger_t`, with the calls made so far in order, and whether the program was aborted.
pub record Logger (Args : Type 0) : Type 0 where
  pub default_domain : Domain
  pub domains : List Domain
  pub handlers : List Handler
  pub log_thread_id : ℕ
  pub stored : List Stored
  pub calls : List (Call Args)
  pub aborted : Bool

abbrev pub is_named : Bytes → Domain → Bool
is_named name d = elim d.name [ none ↦ false | some n ↦ same_text n name ]

abbrev pub find_domain : Bytes → List Domain → Option Domain
find_domain name [] = none
find_domain name (d ∷ ds) = if is_named name d then some d else find_domain name ds

abbrev pub update_domain : (Domain → Domain) → Bytes → List Domain → List Domain
update_domain f name [] = []
update_domain f name (d ∷ ds) = if is_named name d then f d ∷ ds else d ∷ update_domain f name ds

unfoldable pub level_to_mask : Level → ℕ
level_to_mask level =
    let at =
      λ (l : Level) (mask : ℕ). if leb (bit level) (bit l) then or_bit mask (bit l) else mask in
    at debug (at trace (at message (at warning (at error (bit fatal)))))

abbrev pub has_handler : ℕ → List Handler → Bool
has_handler a [] = false
has_handler a (h ∷ hs) = h.address == a || has_handler a hs

abbrev pub without_handler : ℕ → List Handler → List Handler
without_handler a [] = []
without_handler a (h ∷ hs) = if h.address == a then hs else h ∷ without_handler a hs

-- `bctbx_log_domain_get_thread_log_level_mask`
abbrev pub thread_mask : Domain → (self : ℕ) → ℕ
thread_mask d self = elim (d.thread_level self) [ none ↦ 0 | some mask ↦ mask ]

abbrev pub effective_mask : Domain → (self : ℕ) → ℕ
effective_mask d self =
    let own = if d.thread_level_set then thread_mask d self else 0 in
    if own == 0 then d.logmask else own

abbrev with_thread_level : (self : ℕ) → Option ℕ → (ℕ → Option ℕ) → ℕ → Option ℕ
with_thread_level self mask level t = if t == self then mask else level t

module _ {Args : Type 0} where
  -- `bctbx_get_logger` at its first call, with the default handler where there is one.
  unfoldable pub new_logger : List Handler → Logger Args
  new_logger handlers = record {
    default_domain = domain_new none (bit warning + bit error + bit fatal);
    domains = [];
    handlers = handlers;
    log_thread_id = 0;
    stored = [];
    calls = [];
    aborted = false;
  }

  unfoldable pub add_log_handler : Handler → Logger Args → Logger Args
  add_log_handler h lg =
      if has_handler h.address lg.handlers
      then lg
      else record lg { handlers = lg.handlers ++ h ∷ [] }

  unfoldable pub remove_log_handler : Handler → Logger Args → Logger Args
  remove_log_handler h lg = record lg { handlers = without_handler h.address lg.handlers }

  unfoldable pub get_log_domain : Logger Args → Option Bytes → Option Domain
  get_log_domain lg none = some lg.default_domain
  get_log_domain lg (some name) = find_domain name lg.domains

  -- The logger with the domain, which is made where it is missing.
  unfoldable pub get_log_domain_rw : Logger Args → Option Bytes → Logger Args
  get_log_domain_rw lg none = lg
  get_log_domain_rw lg (some name) = elim (find_domain name lg.domains) [
    | some d ↦ lg
    | none ↦ record lg { domains = domain_new (some name) lg.default_domain.logmask ∷ lg.domains }
  ]

  -- A write through the pointer that `get_log_domain` returns.
  abbrev pub at_domain : (Domain → Domain) → Option Bytes → Logger Args → Logger Args
  at_domain f none lg = record lg { default_domain = f lg.default_domain }
  at_domain f (some name) lg = record lg { domains = update_domain f name lg.domains }

  unfoldable pub set_log_level_mask : Option Bytes → ℕ → Logger Args → Logger Args
  set_log_level_mask domain levelmask lg =
      at_domain (λ d. record d { logmask = levelmask }) domain (get_log_domain_rw lg domain)

  unfoldable pub set_log_level : Option Bytes → Level → Logger Args → Logger Args
  set_log_level domain level lg = set_log_level_mask domain (level_to_mask level) lg

  -- The domain, or the default one where there is no such domain.
  abbrev pub domain_or_default : Logger Args → Option Bytes → Domain
  domain_or_default lg domain = elim (get_log_domain lg domain) [
    | none ↦ lg.default_domain
    | some d ↦ d
  ]

  unfoldable pub get_log_level_mask : Logger Args → Option Bytes → ℕ
  get_log_level_mask lg domain = (domain_or_default lg domain).logmask

  unfoldable pub log_level_enabled : Logger Args → (self : ℕ) → Option Bytes → Level → Bool
  log_level_enabled lg self domain level =
      has_bit (effective_mask (domain_or_default lg domain) self) (bit level)

  -- `none` is the dereference of a domain that does not exist.
  unfoldable pub set_thread_log_level :
      (self : ℕ) → Option Bytes → Level → Logger Args → Option (Logger Args)
  set_thread_log_level self domain level lg = elim (get_log_domain lg domain) [
    | none ↦ none
    | some _ ↦ some (
        at_domain
          (λ d. record d {
            thread_level = with_thread_level self (some (level_to_mask level)) d.thread_level;
            thread_level_set = true;
          })
          domain lg)
  ]

  unfoldable pub clear_thread_log_level :
      (self : ℕ) → Option Bytes → Logger Args → Option (Logger Args)
  clear_thread_log_level self domain lg = elim (get_log_domain lg domain) [
    | none ↦ none
    | some _ ↦ some (
        at_domain
          (λ d. record d {
            thread_level =
                with_thread_level self
                  (elim (d.thread_level self) [ none ↦ none | some _ ↦ some 0 ]) d.thread_level;
          })
          domain lg)
  ]
