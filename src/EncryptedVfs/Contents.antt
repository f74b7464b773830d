-- ===== src/EncryptedVfs/Contents.antt =====
-- What an encrypted file of src/vfs/vfs_encrypted.cc holds: chunks, each with its text, behind the
-- header.
use bctoolbox.Common.{
  ℕ, zero, suc, ◌+◌, ◌*◌, ◌%◌, ◌^◌, ◌≤◌, ◌<◌, ◌≡◌, refl, some, List, [], ◌∷◌, ◌++◌, arith, length,
  take, drop, length-append, ltb, true, ◌⊎◌, inl, inr,
}
use bctoolbox.Vfs.{Bytes, Methods}
use bctoolbox.EncryptedVfs.{returns, Modules, Evfs, get_chunk_offset}
use bctoolbox.EncryptedVfs.Blocks.{flat, Fills, AreBlocks, take-first, drop-first}
use bctoolbox.EncryptedVfs.Read.{decrypt_loop}

pub record Chunk : Type 0 where
  pub raw : Bytes
  pub text : Bytes

abbrev pub raw_of : Chunk → Bytes
raw_of x = x.raw

abbrev pub text_of : Chunk → Bytes
text_of x = x.text

module _ {E R : Type 0} (mods : Modules E R) (e : E) where
  -- The chunk with the index `i`.
  pub record IsChunk (i : ℕ) (x : Chunk) : Type 0 where
    pub decrypts : mods.decrypt_chunk e i x.raw ≡ returns x.text
    pub header : length x.raw ≡ length x.text + mods.get_chunk_header_size e
    pub some_text : 0 < length x.text

  -- What the chunks of a file rest on: a text is encrypted to a chunk that decrypts to it, also where
  -- the chunk was there before, and the module has its part of a header.
  pub record IsCipher : Type 0 where
    pub encrypts :
        (i : ℕ) (text : Bytes) (g : R)
        → i < 2 ^ 32
        → 0 < length text
        → (raw : Bytes) × ((mods.encrypt_chunk e i text g).0 ≡ returns raw)
          × IsChunk i (record { raw = raw; text = text })
    pub encrypts_again :
        (i : ℕ) (x : Chunk) (text : Bytes) (g : R)
        → IsChunk i x
        → i < 2 ^ 32
        → 0 < length text
        → (raw : Bytes) × ((mods.encrypt_chunk_again e i x.raw text g).0 ≡ returns raw)
          × IsChunk i (record { raw = raw; text = text })
    pub module_header :
        (raw_header : Bytes)
        → (header : Bytes) × (mods.get_module_file_header e raw_header ≡ returns header)
          × (length header ≡ mods.get_module_file_header_size e)

  abbrev pub AreChunks : ℕ → List Chunk → Type 0
  AreChunks i [] = Unit
  AreChunks i (x ∷ xs) = IsChunk i x × AreChunks (suc i) xs

  pub raw-Fills :
      (c k i : ℕ) (x : Chunk) (xs : List Chunk)
      → IsChunk i x
      → Fills text_of (length x.text) c xs
      → Fills raw_of (length x.raw) (c + mods.get_chunk_header_size e) xs
  raw-Fills c k i x [] h b = omega (arith, h.header)
  raw-Fills c k i x (y ∷ xs) h b = omega (arith, h.header)

  -- With its header, a chunk of `c` bytes of text is a block of so many more.
  pub raw-AreBlocks :
      (c i : ℕ) (xs : List Chunk)
      → AreChunks i xs
      → AreBlocks text_of c xs
      → AreBlocks raw_of (c + mods.get_chunk_header_size e) xs
  raw-AreBlocks c i [] h b = tt
  raw-AreBlocks c i (x ∷ xs) h b =
      (raw-Fills c 0 i x xs h.0 b.0, raw-AreBlocks c (suc i) xs h.1 b.1)

  pub drop-AreChunks : (j i : ℕ) (xs : List Chunk) → AreChunks i xs → AreChunks (i + j) (drop j xs)
  drop-AreChunks zero i xs h = let e : i + 0 ≡ i = omega arith in rw e h
  drop-AreChunks (suc j) i [] h = tt
  drop-AreChunks (suc j) i (x ∷ xs) h =
      let e : i + suc j ≡ suc i + j = omega arith in rw e (drop-AreChunks j (suc i) xs h.1)

  pub take-AreChunks : (j i : ℕ) (xs : List Chunk) → AreChunks i xs → AreChunks i (take j xs)
  take-AreChunks zero i xs h = tt
  take-AreChunks (suc j) i [] h = tt
  take-AreChunks (suc j) i (x ∷ xs) h = (h.0, take-AreChunks j (suc i) xs h.1)

  -- Each chunk has a byte at least.
  pub length-raw : (i : ℕ) (xs : List Chunk) → AreChunks i xs → length xs ≤ length (flat raw_of xs)
  length-raw i [] h = omega arith
  length-raw i (x ∷ xs) h = omega (
    arith,
    length-append x.raw (flat raw_of xs),
    length-raw (suc i) xs h.1,
    h.0.header,
    h.0.some_text,
  )

  pub length-raw_eq :
      (i : ℕ) (xs : List Chunk)
      → AreChunks i xs
      → length (flat raw_of xs)
        ≡ length (flat text_of xs) + length xs * mods.get_chunk_header_size e
  length-raw_eq i [] h = omega arith
  length-raw_eq i (x ∷ xs) h =
      let count : suc (length xs) * mods.get_chunk_header_size e
          ≡ mods.get_chunk_header_size e + length xs * mods.get_chunk_header_size e =
        grind arith in
      omega (
        arith,
        count,
        length-append x.raw (flat raw_of xs),
        length-append x.text (flat text_of xs),
        length-raw_eq (suc i) xs h.1,
        h.0.header,
      )

  pub append-AreChunks :
      (i : ℕ) (xs ys : List Chunk)
      → AreChunks i xs
      → AreChunks (i + length xs) ys
      → AreChunks i (xs ++ ys)
  append-AreChunks i [] ys h k = let e : i + 0 ≡ i = omega arith in rw e at k
  append-AreChunks i (x ∷ xs) ys h k =
      let e : i + suc (length xs) ≡ suc i + length xs = omega arith in
      (h.0, append-AreChunks (suc i) xs ys h.1 (rw e at k))

  pub some_or_none :
      (i : ℕ) (xs : List Chunk) → AreChunks i xs → (xs ≡ []) ⊎ (0 < length (flat text_of xs))
  some_or_none i [] h = inl refl
  some_or_none i (x ∷ xs) h =
      inr (omega (arith, length-append x.text (flat text_of xs), h.0.some_text))

  -- The last chunk is not empty.
  pub number_lt :
      (c i : ℕ) (xs : List Chunk)
      → 0 < c
      → AreChunks i xs
      → AreBlocks text_of c xs
      → length xs * c < length (flat text_of xs) + c
  number_lt c i [] some_chunk h b = omega arith
  number_lt c i (x ∷ []) some_chunk h b =
      let count : 1 * c ≡ c = grind arith in
      omega (arith, count, length-append x.text [], h.0.some_text)
  number_lt c i (x ∷ y ∷ xs) some_chunk h b =
      let count : suc (length (y ∷ xs)) * c ≡ c + length (y ∷ xs) * c = grind arith in
      omega (
        arith,
        count,
        length-append x.text (flat text_of (y ∷ xs)),
        b.0,
        number_lt c (suc i) (y ∷ xs) some_chunk h.1 b.1,
      )

  pub decrypt_loop-flat :
      (c k i : ℕ) (xs : List Chunk)
      → AreChunks i xs
      → AreBlocks text_of c xs
      → length xs ≤ k
      → i + length xs < 2 ^ 32
      → decrypt_loop mods e (c + mods.get_chunk_header_size e) k i (flat raw_of xs)
        ≡ returns (flat text_of xs)
  unfolding decrypt_loop
  decrypt_loop-flat c zero i [] h b enough small = ground arith
  decrypt_loop-flat c zero i (x ∷ xs) h b enough small = absurd (omega arith)
  decrypt_loop-flat c (suc k) i [] h b enough small = ground arith
  decrypt_loop-flat c (suc k) i (x ∷ xs) h b enough small =
      let blocks = raw-AreBlocks c i (x ∷ xs) h b in
      let size = c + mods.get_chunk_header_size e in
      let more : ltb (mods.get_chunk_header_size e) (length (flat raw_of (x ∷ xs))) ≡ true =
        ground (arith, length-append x.raw (flat raw_of xs), h.0.header, h.0.some_text) in
      let next : (i + 1) % 2 ^ 32 ≡ suc i = omega arith in
      rw
        (
          more,
          take-first raw_of size x xs blocks,
          drop-first raw_of size x xs blocks,
          next,
          h.0.decrypts,
          decrypt_loop-flat c k (suc i) xs h.1 b.1 (omega arith) (omega arith),
        )
        refl

module _ {E R S : Type 0} (mods : Modules E R) (m : Methods S) (contents : S → Bytes) where
  -- The file below has the chunks behind the header, and nothing else.
  pub record Holds (v : Evfs E R S) (e : E) (xs : List Chunk) : Type 0 where
    pub encrypted : v.encryption ≡ some e
    pub chunk : 0 < v.chunk_size
    pub size : v.file_size ≡ length (flat text_of xs)
    pub number : length xs < 2 ^ 32
    pub chunks : AreChunks mods e 0 xs
    pub blocks : AreBlocks text_of v.chunk_size xs
    pub unpaged : v.file_std.f_size ≡ 0
    pub body : drop (get_chunk_offset mods v e 0) (contents v.file_std.disk) ≡ flat raw_of xs
