-- ===== src/Crypto/RoundTrip.antt =====
-- A file that src/crypto/crypto.c encrypts chunk by chunk, and decrypts.
use bctoolbox.Common.{ℕ, ◌%◌, ◌≡◌, true, Option, none, some, List, [], ◌∷◌, length}
use bctoolbox.Common.Int.{pos}
use bctoolbox.Crypto.{Bytes, encrypt, decrypt, Gcm, encrypt_file, decrypt_file}

-- What a caller does with the outcomes: it keeps the context, and collects the outputs.
abbrev pub collected :
    {C : Type 0} → Bytes → Option (List Bytes × Option C) → Option (List Bytes × Option C)
collected output none = none
collected output (some (outputs, last)) = some (output ∷ outputs, last)

unfoldable pub encrypt_all :
    {C : Type 0} → Gcm C → Option Bytes → Option C → List Bytes → Option (List Bytes × Option C)
encrypt_all gcm key context [] = some ([], context)
encrypt_all gcm key context (p ∷ ps) =
    elim (encrypt_file gcm context key (length p) (some p) true) [
      | none ↦ none
      | some o ↦ collected o.output (encrypt_all gcm key o.context ps)
    ]

unfoldable pub decrypt_all :
    {C : Type 0} → Gcm C → Option Bytes → Option C → List Bytes → Option (List Bytes × Option C)
decrypt_all gcm key context [] = some ([], context)
decrypt_all gcm key context (c ∷ cs) =
    elim (decrypt_file gcm context key (length c) true (some c)) [
      | none ↦ none
      | some o ↦ collected o.output (decrypt_all gcm key o.context cs)
    ]

-- Only the last piece may have a length that is not a multiple of the block.
abbrev pub IsStream : List Bytes → Type 0
IsStream [] = Unit
IsStream (p ∷ []) = Unit
IsStream (p ∷ q ∷ ps) = (length p % 16 ≡ 0) × IsStream (q ∷ ps)

-- What AES-GCM promises: a context for decryption that keeps step with one for encryption turns
-- each chunk of whole blocks back and keeps step, any chunk at the end, and both end with the same
-- tag.
pub record Mirrors {C : Type 0} (gcm : Gcm C) (InStep AtEnd : C → C → Type 0) : Type 0 where
  pub start :
      (key iv : Bytes)
      → length key ≡ 24
      → length iv ≡ 8
      → (e : C) × (d : C) × (gcm.context_new key iv encrypt ≡ some e)
        × (gcm.context_new key iv decrypt ≡ some d)
        × InStep e d
  pub chunk :
      (e d : C) (p : Bytes)
      → length p % 16 ≡ 0
      → InStep e d
      → ((gcm.process_chunk d (gcm.process_chunk e p).0.1).0 ≡ (pos 0, p))
        × InStep (gcm.process_chunk e p).1 (gcm.process_chunk d (gcm.process_chunk e p).0.1).1
  pub last_chunk :
      (e d : C) (p : Bytes)
      → InStep e d
      → ((gcm.process_chunk d (gcm.process_chunk e p).0.1).0 ≡ (pos 0, p))
        × AtEnd (gcm.process_chunk e p).1 (gcm.process_chunk d (gcm.process_chunk e p).0.1).1
  pub same_tag : (e d : C) (n : ℕ) → AtEnd e d → (gcm.finish e n).1 ≡ (gcm.finish d n).1

module _ {C : Type 0} (gcm : Gcm C) (InStep AtEnd : C → C → Type 0)
    (mirrors : Mirrors gcm InStep AtEnd) where
  abbrev cipher_of : C → Bytes → Bytes
  cipher_of c p = (gcm.process_chunk c p).0.1

  abbrev behind : C → Bytes → C
  behind c p = (gcm.process_chunk c p).1

  -- A file in pieces comes back, and the two contexts are at its end.
  record Returned (key : Option Bytes) (ps : List Bytes) (at_e at_d : Option C) : Type 0 where
    cipher : List Bytes
    last_e : C
    last_d : C
    encrypted : encrypt_all gcm key at_e ps ≡ some (cipher, some last_e)
    decrypted : decrypt_all gcm key at_d cipher ≡ some (ps, some last_d)
    at_end : AtEnd last_e last_d
