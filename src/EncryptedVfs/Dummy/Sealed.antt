-- ===== src/EncryptedVfs/Dummy/Sealed.antt =====
-- The chunks of src/vfs/vfs_encryption_module_dummy.cc: what is sealed passes the check, and decrypts
-- to its text.
use bctoolbox.Common.{
  ℕ, zero, suc, ◌+◌, ◌≤◌, ◌<◌, ◌≡◌, refl, sym, ap, ◌∙◌, true, false, [], ◌∷◌, ◌++◌, arith, length,
  take, drop, length-append, length-drop, ltb, ◌==◌, eq→==,
}
use bctoolbox.Common.Slices.{drop-drop, drop-append_le, take-append_le, take_exactly, drop_exactly}
use bctoolbox.Vfs.{Bytes}
use bctoolbox.Vfs.Lines.{nth_byte}
use bctoolbox.EncryptedVfs.{returns}
use bctoolbox.EncryptedVfs.Header.{equal, big_endian}
use bctoolbox.EncryptedVfs.Dummy.{
  Dummy, Hmac, keyed, chunk_integrity_tag, check_chunk, decrypt_chunk, sealed, xor_key, xor_block,
  xor_all, index_of,
}
use bctoolbox.EncryptedVfs.Dummy.Xor.{xor_all_twice, length-xor_all}

pub equal_self : (s : Bytes) → equal s s ≡ true
equal_self [] = refl
equal_self (b ∷ s) = rw (eq→== b b refl, equal_self s) refl

nth-drop : (n j : ℕ) (s : Bytes) → nth_byte (n + j) s ≡ nth_byte j (drop n s)
nth-drop zero j s = let e : 0 + j ≡ j = omega arith in rw e
nth-drop (suc n) zero [] = refl
nth-drop (suc n) (suc j) [] = refl
nth-drop (suc n) j (b ∷ s) = let e : suc n + j ≡ suc (n + j) = omega arith in rw e (nth-drop n j s)

-- Behind the tag.
pub index_of-drop : (s : Bytes) → index_of s ≡ big_endian 4 0 (drop 8 s) 0
index_of-drop s = rw (nth-drop 8 0 s, nth-drop 8 1 s, nth-drop 8 2 s, nth-drop 8 3 s) refl

nth-append_left : (j : ℕ) (s t : Bytes) → j < length s → nth_byte j (s ++ t) ≡ nth_byte j s
nth-append_left j [] t h = absurd (omega arith)
nth-append_left zero (b ∷ s) t h = refl
nth-append_left (suc j) (b ∷ s) t h = nth-append_left j s t (omega arith)

pub index-append : (s t : Bytes) → 4 ≤ length s → big_endian 4 0 (s ++ t) 0 ≡ big_endian 4 0 s 0
index-append s t h =
    rw
      (
        nth-append_left 0 s t (omega arith),
        nth-append_left 1 s t (omega arith),
        nth-append_left 2 s t (omega arith),
        nth-append_left 3 s t (omega arith),
      )
      refl

pub record IsReady (d : Dummy) : Type 0 where
  pub header_size : length d.file_header ≡ 8
  pub secret_size : length d.secret ≡ 16

module _ (hmac : Hmac) (hmac_size : (key text : Bytes) (n : ℕ) → length (hmac key text n) ≡ n)
    (d : Dummy) (ready : IsReady d) where
  abbrev tag_of : Bytes → Bytes
  tag_of text = hmac (take 16 d.secret) text 8

  pub keyed-ready : (text : Bytes) → keyed hmac d text ≡ returns (tag_of text)
  unfolding keyed
  keyed-ready text =
      let enough : ltb (length d.secret) 16 ≡ false = ground (arith, ready.secret_size) in
      rw enough refl

  tag-ready :
      (raw : Bytes)
      → 8 ≤ length raw
      → chunk_integrity_tag hmac d raw ≡ returns (tag_of (drop 8 raw))
  unfolding chunk_integrity_tag
  tag-ready raw h =
      let enough : ltb (length raw) 8 ≡ false = ground arith in rw enough (keyed-ready (drop 8 raw))

  abbrev cipher_of : (header text : Bytes) → Bytes
  cipher_of header text = xor_all (xor_key d header) text

  abbrev sealed_chunk : (header text : Bytes) → Bytes
  sealed_chunk header text =
      let body = drop 8 (header ++ cipher_of header text) in tag_of body ++ body

  module _ (header text : Bytes) (size : length header ≡ 16) where
    sealed-chunk : sealed hmac d header text ≡ returns (sealed_chunk header text)
    unfolding sealed
    sealed-chunk =
        let raw = header ++ cipher_of header text in
        let tag = tag_of (drop 8 raw) in
        let place : 0 + length tag ≡ 8 =
          omega (arith, hmac_size (take 16 d.secret) (drop 8 raw) 8) in
        rw (tag-ready raw (omega (arith, length-append header (cipher_of header text))), place) refl

    body-chunk : drop 8 (sealed_chunk header text) ≡ drop 8 (header ++ cipher_of header text)
    body-chunk =
        let body = drop 8 (header ++ cipher_of header text) in
        drop_exactly 8 (tag_of body) body (hmac_size (take 16 d.secret) body 8)

    tag-chunk :
        take 8 (sealed_chunk header text) ≡ tag_of (drop 8 (header ++ cipher_of header text))
    tag-chunk =
        let body = drop 8 (header ++ cipher_of header text) in
        take_exactly 8 (tag_of body) body (hmac_size (take 16 d.secret) body 8)

    length-chunk : length (sealed_chunk header text) ≡ length text + 16
    length-chunk =
        let raw = header ++ cipher_of header text in
        omega (
          arith,
          length-append (tag_of (drop 8 raw)) (drop 8 raw),
          hmac_size (take 16 d.secret) (drop 8 raw) 8,
          length-drop 8 raw,
          length-append header (cipher_of header text),
          length-xor_all (xor_key d header) text,
        )

    -- The header's part behind the tag is that of the chunk.
    middle-chunk : drop 8 (sealed_chunk header text) ≡ drop 8 header ++ cipher_of header text
    middle-chunk = body-chunk ∙ drop-append_le 8 header (cipher_of header text) (omega arith)

    key-chunk : xor_key d (sealed_chunk header text) ≡ xor_key d header
    unfolding xor_key
    key-chunk =
        ap (λ s. xor_block (d.file_header ++ take 8 s) d.secret) middle-chunk
        ∙ ap (λ s. xor_block (d.file_header ++ s) d.secret)
            (take-append_le 8 (drop 8 header) (cipher_of header text)
              (omega (arith, length-drop 8 header)))

    cipher-chunk : drop 16 (sealed_chunk header text) ≡ cipher_of header text
    cipher-chunk =
        sym (drop-drop 8 8 (sealed_chunk header text))
        ∙ ap (drop 8) middle-chunk
        ∙ drop_exactly 8 (drop 8 header) (cipher_of header text)
            (omega (arith, length-drop 8 header))

    index-chunk : index_of (sealed_chunk header text) ≡ index_of header
    index-chunk =
        index_of-drop (sealed_chunk header text)
        ∙ ap (λ s. big_endian 4 0 s 0) middle-chunk
        ∙ index-append (drop 8 header) (cipher_of header text) (omega (arith, length-drop 8 header))
        ∙ sym (index_of-drop header)

    -- The tag and the index of a sealed chunk are right, and it has its header.
    check-chunk :
        (i : ℕ) → index_of header ≡ i → check_chunk hmac d i (sealed_chunk header text) ≡ returns tt
    unfolding check_chunk
    check-chunk i index =
        let z = sealed_chunk header text in
        let long : ltb (length z) 12 ≡ false = ground (arith, length-chunk) in
        let whole : ltb (length z) 16 ≡ false = ground (arith, length-chunk) in
        let same : (i == index_of z) ≡ true = eq→== i (index_of z) (sym index ∙ sym index-chunk) in
        rw
          (
            tag-ready z (omega (arith, length-chunk)),
            body-chunk,
            tag-chunk,
            equal_self (tag_of (drop 8 (header ++ cipher_of header text))),
            long,
            same,
            whole,
          )
          refl

    -- With the right index, it decrypts to its text.
    pub decrypt-sealed :
        (i : ℕ)
        → index_of header ≡ i
        → (raw : Bytes) × (sealed hmac d header text ≡ returns raw)
          × (decrypt_chunk hmac d i raw ≡ returns text)
          × (length raw ≡ length text + 16)
    unfolding decrypt_chunk
    decrypt-sealed i index = (
      sealed_chunk header text,
      sealed-chunk,
      rw (check-chunk i index, key-chunk, cipher-chunk, xor_all_twice (xor_key d header) text) refl,
      length-chunk,
    )
