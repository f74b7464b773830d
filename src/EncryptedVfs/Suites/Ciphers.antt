-- ===== src/EncryptedVfs/Suites/Ciphers.antt =====
-- The encryption modules of src/vfs/vfs_encrypted.cc decrypt what they encrypt, each over what its
-- primitives promise.
use bctoolbox.Common.{
  ℕ, zero, suc, ◌+◌, ◌%◌, ◌^◌, ◌≤◌, ◌<◌, ◌≡◌, ◌≢◌, refl, sym, ap, ◌∙◌, false, some, [], ◌∷◌, ◌++◌,
  arith, length, take, drop, length-append, length-take, length-drop, ltb, ne→==,
}
use bctoolbox.Common.Slices.{drop-drop, drop-append_le, take_exactly, drop_exactly}
use bctoolbox.Vfs.{Bytes}
use bctoolbox.Vfs.Open.{zeros}
use bctoolbox.Vfs.Lines.{nth_byte}
use bctoolbox.EncryptedVfs.{returns}
use bctoolbox.EncryptedVfs.Header.{big_endian}
use bctoolbox.EncryptedVfs.Dummy
use bctoolbox.EncryptedVfs.Dummy.{Dummy, Hmac, index_of, count_of, u32_bytes}
use bctoolbox.EncryptedVfs.Dummy.Sealed.{
  IsReady, decrypt-sealed, index_of-drop, index-append, keyed-ready,
}
use bctoolbox.EncryptedVfs.Aes
use bctoolbox.EncryptedVfs.Aes.{Aes, Primitives, derive_chunk_key}
use bctoolbox.EncryptedVfs.Suites.{of_dummy, of_aes, modules}
use bctoolbox.EncryptedVfs.Contents.{IsChunk, IsCipher}

nth-take : (n j : ℕ) (s : Bytes) → j < n → nth_byte j (take n s) ≡ nth_byte j s
nth-take zero j s h = absurd (omega arith)
nth-take (suc n) j [] h = refl
nth-take (suc n) zero (b ∷ s) h = refl
nth-take (suc n) (suc j) (b ∷ s) h = nth-take n j s (omega arith)

new_header-index : (i : ℕ) → i < 2 ^ 32 → index_of (zeros 8 ++ u32_bytes i ++ zeros 4) ≡ i
new_header-index i h = omega arith

-- The header of a chunk that is encrypted again keeps the index.
again_header-index :
    (raw : Bytes) (n : ℕ) → 12 ≤ length raw → index_of (take 12 raw ++ u32_bytes n) ≡ index_of raw
again_header-index raw n h =
    let front = take 12 raw in
    index_of-drop (front ++ u32_bytes n)
    ∙ ap (λ s. big_endian 4 0 s 0)
        (drop-append_le 8 front (u32_bytes n) (omega (arith, length-take 12 raw)))
    ∙ index-append (drop 8 front) (u32_bytes n)
        (omega (arith, length-take 12 raw, length-drop 8 front))
    ∙ sym (index_of-drop front)
    ∙ rw
        (
          nth-take 12 8 raw (omega arith),
          nth-take 12 9 raw (omega arith),
          nth-take 12 10 raw (omega arith),
          nth-take 12 11 raw (omega arith),
        )
        refl

module _ {R : Type 0} (hmac : Hmac) (p : Primitives R) where
  check_chunk-index :
      (d : Dummy) (i : ℕ) (raw text : Bytes)
      → Dummy.decrypt_chunk hmac d i raw ≡ returns text
      → (Dummy.check_chunk hmac d i raw ≡ returns tt) × (i ≡ index_of raw)
  unfolding Dummy.decrypt_chunk Dummy.check_chunk
  check_chunk-index d i raw text h = (ground arith, ground arith)

  module _ (hmac_size : (key text : Bytes) (n : ℕ) → length (hmac key text n) ≡ n) where
    -- The module for tests, with its secret set, is a cipher: a chunk with the index that it is read
    -- at decrypts to the text that was encrypted, also when it was encrypted again.
    pub dummy-IsCipher : (d : Dummy) → IsReady d → IsCipher (modules hmac p) (of_dummy d)
    unfolding modules Dummy.encrypt_chunk Dummy.encrypt_chunk_again Dummy.get_module_file_header
        Dummy.header_tag
    dummy-IsCipher d ready = record {
      encrypts = λ i text g small some_text.
          let (raw, made, back, size) =
            decrypt-sealed hmac hmac_size d ready (zeros 8 ++ u32_bytes i ++ zeros 4) text refl i
              (new_header-index i small) in
          (raw, made, record { decrypts = back; header = size; some_text = some_text });
      encrypts_again = λ i x text g chunk small some_text.
          let (checked, index) = check_chunk-index d i x.raw x.text chunk.decrypts in
          let front = take 12 x.raw in
          let next = u32_bytes ((count_of x.raw + 1) % 2 ^ 32) in
          let long : 16 ≤ length x.raw = omega (arith, chunk.header) in
          let (raw, made, back, size) =
            decrypt-sealed hmac hmac_size d ready (front ++ next) text
              (omega (arith, length-append front next, length-take 12 x.raw)) i
              (again_header-index x.raw ((count_of x.raw + 1) % 2 ^ 32) (omega arith)
                ∙ sym index) in
          (raw, rw checked made, record { decrypts = back; header = size; some_text = some_text });
      module_header = λ raw_header.
          let tag = hmac (take 16 d.secret) (raw_header ++ d.file_header) 8 in
          (
            tag ++ d.file_header,
            rw (keyed-ready hmac hmac_size d ready (raw_header ++ d.file_header)) refl,
            omega (
              arith,
              length-append tag d.file_header,
              hmac_size (take 16 d.secret) (raw_header ++ d.file_header) 8,
              ready.header_size,
            ),
          );
    }

  -- What the primitives promise: sizes, and that what was encrypted decrypts with the same key,
  -- vector and tag.
  pub record AreSound : Type 0 where
    pub random_size : (n : ℕ) (g : R) → length (p.randomize n g).0 ≡ n
    pub hmac_size : (key text : Bytes) → length (p.hmac key text) ≡ 32
    pub tag_size : (key iv text : Bytes) → length (p.aead_encrypt key iv text).1 ≡ 16
    pub cipher_size : (key iv text : Bytes) → length (p.aead_encrypt key iv text).0 ≡ length text
    pub opens :
        (key iv text : Bytes)
        → p.aead_decrypt key iv (p.aead_encrypt key iv text).0 (p.aead_encrypt key iv text).1
          ≡ some text

  pub record HasKeys (a : Aes) : Type 0 where
    pub salt_size : length a.file_salt ≡ 16
    pub some_master_key : length a.master_key ≢ 0
    pub some_header_key : length a.header_key ≢ 0

  module _ (sound : AreSound) where
    aes-IsChunk :
        (a : Aes) (i : ℕ) (text : Bytes) (g : R)
        → HasKeys a
        → 0 < length text
        → (raw : Bytes) × ((Aes.encrypt_chunk p a i text g).0 ≡ returns raw)
          × IsChunk (modules hmac p) (of_aes a) i (record { raw = raw; text = text })
    unfolding modules Aes.encrypt_chunk Aes.decrypt_chunk
    aes-IsChunk a i text g keys some_text =
        let key = derive_chunk_key p a i in
        let iv = (p.randomize 12 g).0 in
        let cipher = (p.aead_encrypt key iv text).0 in
        let tag = (p.aead_encrypt key iv text).1 in
        let raw = tag ++ (iv ++ cipher) in
        let keyed = ne→== (length a.master_key) 0 keys.some_master_key in
        let size : length raw ≡ length text + 28 = omega (
          arith,
          length-append tag (iv ++ cipher),
          length-append iv cipher,
          sound.tag_size key iv text,
          sound.random_size 12 g,
          sound.cipher_size key iv text,
        ) in
        let whole : ltb (length raw) 28 ≡ false = ground arith in
        let front = drop_exactly 16 tag (iv ++ cipher) (sound.tag_size key iv text) in
        let rest =
          sym (drop-drop 12 16 raw)
          ∙ ap (drop 12) front
          ∙ drop_exactly 12 iv cipher (sound.random_size 12 g) in
        (
          raw,
          rw keyed refl,
          record {
            decrypts =
                rw
                  (
                    keyed,
                    whole,
                    front,
                    take_exactly 12 iv cipher (sound.random_size 12 g),
                    rest,
                    take_exactly 16 tag (iv ++ cipher) (sound.tag_size key iv text),
                    sound.opens key iv text,
                  )
                  refl;
            header = size;
            some_text = some_text;
          },
        )

    -- The module of AES-GCM, with its keys set, over sound primitives, is a cipher: what it encrypts,
    -- for the first time or again, has its header in front and decrypts to the text, with the key that
    -- is derived where it is read.
    pub aes-IsCipher : (a : Aes) → HasKeys a → IsCipher (modules hmac p) (of_aes a)
    unfolding modules Aes.encrypt_chunk_again Aes.get_module_file_header
    aes-IsCipher a keys = record {
      encrypts = λ i text g small some_text. aes-IsChunk a i text g keys some_text;
      encrypts_again = λ i x text g chunk small some_text. aes-IsChunk a i text g keys some_text;
      module_header = λ raw_header.
          let tag = p.hmac a.header_key raw_header in
          (
            tag ++ a.file_salt,
            rw (ne→== (length a.header_key) 0 keys.some_header_key) refl,
            omega (
              arith,
              length-append tag a.file_salt,
              sound.hmac_size a.header_key raw_header,
              keys.salt_size,
            ),
          );
    }
