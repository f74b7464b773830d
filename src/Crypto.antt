-- ===== src/Crypto.antt =====
-- src/crypto/crypto.c: encryption and decryption of a file chunk by chunk. The AES-GCM functions,
-- which call a library, are a parameter. A buffer that may be NULL is an option. A read behind the
-- end of the key is `none`.
pub mod RoundTrip
use bctoolbox.Common.{
  ℕ, zero, suc, ◌+◌, Bool, true, false, ◌&&◌, Option, none, some, List, [], take, drop, ltb, leb,
  length, if◌then◌else◌,
}
use bctoolbox.Common.Int.{ℤ, pos, negsuc}

abbrev pub Bytes : Type 0
Bytes = List ℕ

-- A mode, and the functions on a context: a new one of a key and an initialisation vector, a chunk,
-- and the end, which gives a status and a tag of the length asked for.
pub data Mode : Type 0 where
  encrypt : Mode
  decrypt : Mode

pub record Gcm (C : Type 0) : Type 0 where
  pub context_new : (key iv : Bytes) → Mode → Option C
  pub process_chunk : C → Bytes → (ℤ × Bytes) × C
  pub finish : C → (tag_length : ℕ) → ℤ × Bytes

-- The status, what `*cryptoContext` is then, and what the output buffer gets.
pub record Outcome (C : Type 0) : Type 0 where
  pub ret : ℤ
  pub context : Option C
  pub output : Bytes

abbrev pub outcome : {C : Type 0} → ℤ → Option C → Bytes → Outcome C
outcome r c o = record { ret = r; context = c; output = o }

abbrev failed : {C : Type 0} → Outcome C
failed = outcome (negsuc 0) none []

-- No context is the status -1.
abbrev pub with_context : {C : Type 0} → Option (Option C) → (C → Outcome C) → Option (Outcome C)
with_context none go = none
with_context (some none) go = some failed
with_context (some (some c)) go = some (go c)

module _ {C : Type 0} (gcm : Gcm C) where
  -- The context at hand, or a new one of the key, at the first call: 24 bytes of key and 8 of vector.
  unfoldable pub context_of : Option C → Option Bytes → Mode → Option (Option C)
  context_of (some c) key mode = some (some c)
  context_of none none mode = some none
  context_of none (some key) mode =
      if leb 32 (length key)
      then some (gcm.context_new (take 24 key) (take 8 (drop 24 key)) mode)
      else none

  -- A tag is asked for where there is a buffer with some length.
  abbrev tag_length : (has_buffer : Bool) (length : ℕ) → ℕ
  tag_length has_buffer length = if has_buffer && ltb 0 length then length else 0

  unfoldable pub encrypt_chunk : C → Option Bytes → (has_cipher : Bool) (length : ℕ) → Outcome C
  encrypt_chunk c (some plain) has_cipher length =
      let ((_, cipher), c1) = gcm.process_chunk c plain in outcome (pos 0) (some c1) cipher
  encrypt_chunk c none has_cipher length =
      let (_, tag) = gcm.finish c (tag_length has_cipher length) in outcome (pos 0) none tag

  unfoldable pub encrypt_file :
      Option C
      → (key : Option Bytes) → (length : ℕ) (plain : Option Bytes) (has_cipher : Bool)
      → Option (Outcome C)
  encrypt_file context key length plain has_cipher =
      with_context (context_of context key encrypt) λ c. encrypt_chunk c plain has_cipher length

  unfoldable pub decrypt_chunk : C → (has_plain : Bool) → Option Bytes → (length : ℕ) → Outcome C
  decrypt_chunk c has_plain (some cipher) length =
      let ((ret, plain), c1) = gcm.process_chunk c cipher in outcome ret (some c1) plain
  decrypt_chunk c has_plain none length =
      let (ret, tag) = gcm.finish c (tag_length has_plain length) in outcome ret none tag

  unfoldable pub decrypt_file :
      Option C
      → (key : Option Bytes) → (length : ℕ) (has_plain : Bool) (cipher : Option Bytes)
      → Option (Outcome C)
  decrypt_file context key length has_plain cipher =
      with_context (context_of context key decrypt) λ c. decrypt_chunk c has_plain cipher length
