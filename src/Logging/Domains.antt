-- ===== src/Logging/Domains.antt =====
-- Levels, masks and domains of src/logging/logging.c.
use bctoolbox.Common.{
  ℕ, ◌≡◌, refl, ap, ◌∙◌, inl, inr, Bool, true, false, Option, none, some, List, [], ◌∷◌, arith, leb,
  Bool-cases,
}
use bctoolbox.Logging.{
  Bytes, same_text, Level, debug, trace, message, warning, error, fatal, bit, has_bit, Domain,
  domain_new, Logger, is_named, find_domain, update_domain, level_to_mask, get_log_domain,
  get_log_domain_rw, set_log_level_mask, set_log_level, effective_mask, log_level_enabled,
}

-- The mask of a level has the bits of that level and the graver ones.
level_to_mask-has_bit : (l k : Level) → has_bit (level_to_mask l) (bit k) ≡ leb (bit l) (bit k)
unfolding level_to_mask
level_to_mask-has_bit debug debug = refl
level_to_mask-has_bit debug trace = refl
level_to_mask-has_bit debug message = refl
level_to_mask-has_bit debug warning = refl
level_to_mask-has_bit debug error = refl
level_to_mask-has_bit debug fatal = refl
level_to_mask-has_bit trace debug = refl
level_to_mask-has_bit trace trace = refl
level_to_mask-has_bit trace message = refl
level_to_mask-has_bit trace warning = refl
level_to_mask-has_bit trace error = refl
level_to_mask-has_bit trace fatal = refl
level_to_mask-has_bit message debug = refl
level_to_mask-has_bit message trace = refl
level_to_mask-has_bit message message = refl
level_to_mask-has_bit message warning = refl
level_to_mask-has_bit message error = refl
level_to_mask-has_bit message fatal = refl
level_to_mask-has_bit warning debug = refl
level_to_mask-has_bit warning trace = refl
level_to_mask-has_bit warning message = refl
level_to_mask-has_bit warning warning = refl
level_to_mask-has_bit warning error = refl
level_to_mask-has_bit warning fatal = refl
level_to_mask-has_bit error debug = refl
level_to_mask-has_bit error trace = refl
level_to_mask-has_bit error message = refl
level_to_mask-has_bit error warning = refl
level_to_mask-has_bit error error = refl
level_to_mask-has_bit error fatal = refl
level_to_mask-has_bit fatal debug = refl
level_to_mask-has_bit fatal trace = refl
level_to_mask-has_bit fatal message = refl
level_to_mask-has_bit fatal warning = refl
level_to_mask-has_bit fatal error = refl
level_to_mask-has_bit fatal fatal = refl

same_text_refl : (s : Bytes) → same_text s s ≡ true
same_text_refl [] = refl
same_text_refl (c ∷ s) = ground (arith, same_text_refl s)

abbrev with_mask : ℕ → Domain → Domain
with_mask mask d = record d { logmask = mask }

abbrev map_found : (Domain → Domain) → Option Domain → Option Domain
map_found f none = none
map_found f (some d) = some (f d)

-- A change of the mask is found, at its own domain and at no other.
find_domain-update :
    (mask : ℕ) (name : Bytes) (ds : List Domain)
    → find_domain name (update_domain (with_mask mask) name ds)
      ≡ map_found (with_mask mask) (find_domain name ds)
find_domain-update mask name [] = refl
find_domain-update mask name (d ∷ ds) = elim (Bool-cases (is_named name d)) [
  | inl same ↦ rw same (rw same refl)
  | inr other ↦ rw other (rw other (find_domain-update mask name ds))
]

find_domain-new :
    (name : Bytes) (mask : ℕ) (ds : List Domain)
    → find_domain name (domain_new (some name) mask ∷ ds) ≡ some (domain_new (some name) mask)
find_domain-new name mask ds = rw (same_text_refl name) refl

module _ {Args : Type 0} where
  -- The domain that a write through `get_log_domain_rw` writes to.
  abbrev written_to : Logger Args → Bytes → Domain
  written_to lg name = elim (find_domain name lg.domains) [
    | none ↦ domain_new (some name) lg.default_domain.logmask
    | some d ↦ d
  ]

  find_domain-rw :
      (lg : Logger Args) (name : Bytes)
      → find_domain name (get_log_domain_rw lg (some name)).domains ≡ some (written_to lg name)
  unfolding get_log_domain_rw
  find_domain-rw lg name = at (find_domain name lg.domains) refl
    where
      at :
          (o : Option Domain)
          → find_domain name lg.domains ≡ o
          → find_domain name (get_log_domain_rw lg (some name)).domains ≡ some (written_to lg name)
      at none missing =
          rw (missing, get_log_domain_rw, written_to)
            (find_domain-new name lg.default_domain.logmask lg.domains)
      at (some d) found = rw (found, get_log_domain_rw, written_to) found

  enabled-found :
      (g : Logger Args) (self : ℕ) (name : Bytes) (d : Domain) (l k : Level)
      → find_domain name g.domains ≡ some (with_mask (level_to_mask l) d)
      → d.thread_level_set ≡ false
      → log_level_enabled g self (some name) k ≡ leb (bit l) (bit k)
  unfolding log_level_enabled get_log_domain
  enabled-found g self name d l k found none_set =
      ap
        (λ (o : Option Domain).
          has_bit
            (effective_mask (elim o as (λ x. Domain) [ none ↦ g.default_domain | some d ↦ d ]) self)
            (bit k))
        found
      ∙ rw none_set (level_to_mask-has_bit l k)

  -- Behind `bctbx_set_log_level` for a domain on which no thread has set a level of its own, a
  -- message of the domain is enabled exactly if its level is that level or a graver one; the domain
  -- may be the default one, or one that is made by the call.
  pub set_log_level-enabled :
      (lg : Logger Args) (self : ℕ) (domain : Option Bytes) (l k : Level)
      → (elim (get_log_domain lg domain) as (λ o. Bool) [
        | none ↦ false
        | some d ↦ d.thread_level_set
      ])
        ≡ false
      → log_level_enabled (set_log_level domain l lg) self domain k ≡ leb (bit l) (bit k)
  unfolding set_log_level set_log_level_mask get_log_domain get_log_domain_rw log_level_enabled
  set_log_level-enabled lg self none l k free = rw free (level_to_mask-has_bit l k)
  set_log_level-enabled lg self (some name) l k free =
      enabled-found (set_log_level (some name) l lg) self name (written_to lg name) l k
        (find_domain-update (level_to_mask l) name (get_log_domain_rw lg (some name)).domains
          ∙ ap (map_found (with_mask (level_to_mask l))) (find_domain-rw lg name))
        (at (find_domain name lg.domains) refl)
    where
      at :
          (o : Option Domain)
          → find_domain name lg.domains ≡ o
          → (written_to lg name).thread_level_set ≡ false
      at none missing = rw (missing, written_to) refl
      at (some d) found = rw (found, written_to) (rw found at free)
