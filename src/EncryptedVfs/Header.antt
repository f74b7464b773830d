-- ===== src/EncryptedVfs/Header.antt =====
-- src/vfs/vfs_encrypted.cc, continued: the header of an encrypted file.
use bctoolbox.Common.{
  ℕ, zero, suc, ◌+◌, ◌-◌, ◌*◌, ◌/◌, ◌%◌, ◌^◌, Bool, true, false, ◌&&◌, none, some, [], ◌∷◌, ◌++◌,
  length, take, ◌==◌, if◌then◌else◌,
}
use bctoolbox.Common.Int.{ℤ, pos, negsuc, ltb_ℤ, ◌==ℤ◌}
use bctoolbox.Vfs
use bctoolbox.Vfs.{Bytes, Methods, overwrite}
use bctoolbox.Vfs.Open.{zeros}
use bctoolbox.Vfs.Lines.{nth_byte}
use bctoolbox.EncryptedVfs.{
  evfs, undefined, suite_code, Modules, Evfs, Run, pure, throw, lift, on_file, randomly, ◌>>=◌,
  ◌>>◌, get, modify, base_file_header_size, chunk_number, sub64, raw_file_size, raw_chunk_size,
}

-- `BCENCRYPTEDFS`, the text bcEncryptedFs.
abbrev pub magic_number : Bytes
magic_number =
    0x62 ∷ 0x63 ∷ 0x45 ∷ 0x6e ∷ 0x63 ∷ 0x72 ∷ 0x79 ∷ 0x70 ∷ 0x74 ∷ 0x65 ∷ 0x64 ∷ 0x46 ∷ 0x73 ∷ []

abbrev pub equal : Bytes → Bytes → Bool
equal [] [] = true
equal (a ∷ s) (b ∷ t) = a == b && equal s t
equal _ _ = false

-- A signed number as an unsigned one of 64 bits.
abbrev pub to_u64 : ℤ → ℕ
to_u64 (pos n) = n % 2 ^ 64
to_u64 (negsuc n) = 2 ^ 64 - 1 - n % 2 ^ 64

-- A number of `k` bytes, the high one first, behind the first `i` bytes of a header.
abbrev pub big_endian : (k : ℕ) (i : ℕ) → Bytes → ℕ → ℕ
big_endian zero i s acc = acc
big_endian (suc k) i s acc = big_endian k (suc i) s (acc * 256 + nth_byte i s)

-- The bytes of a number, the high one first.
abbrev pub u16_bytes : ℕ → Bytes
u16_bytes n = (n / 256 % 256) ∷ (n % 256) ∷ []

abbrev pub u64_bytes : ℕ → Bytes
u64_bytes n =
    (n / 2 ^ 56 % 256)
    ∷ (n / 2 ^ 48 % 256)
    ∷ (n / 2 ^ 40 % 256)
    ∷ (n / 2 ^ 32 % 256)
    ∷ (n / 2 ^ 24 % 256)
    ∷ (n / 2 ^ 16 % 256)
    ∷ (n / 2 ^ 8 % 256)
    ∷ (n % 256)
    ∷ []

module _ {E R S : Type 0} where
  -- The file has some bytes and no header of ours.
  abbrev pub is_plain : ℕ → Run E R S (Unit {0})
  is_plain size = modify (λ v. record v { file_size = size; encryption = none })

  -- The fields of the header up to the size of the file.
  unfoldable pub with_fields : Bytes → Evfs E R S → Evfs E R S
  with_fields header v = record v {
    version_number = big_endian 2 13 header 0;
    chunk_size = big_endian 2 17 header 0 * 16;
    header_extension_size = big_endian 2 19 header 0;
    file_size = big_endian 8 21 header 0;
  }

module _ {E R S : Type 0} (mods : Modules E R) where
  -- The size of the text that a file of `size` bytes has room for.
  unfoldable pub recovered_size : ℕ → E → Evfs E R S → ℕ
  recovered_size size e v =
      let body =
        sub64 size
          (base_file_header_size + v.header_extension_size + mods.get_module_file_header_size e) in
      sub64 body
        (chunk_number body (raw_chunk_size mods v e) * mods.get_chunk_header_size e % 2 ^ 64)

  -- A size in the header that does not match the file is corrected, and a check asked for. A chunk
  -- size of 0 is divided by.
  unfoldable pub check_size : ℕ → E → Run E R S (Unit {0})
  check_size size e = do
    v ← get
    if v.chunk_size == 0
        then throw undefined
        else if raw_file_size mods v e == size
        then pure tt
        else modify
            (λ v. record v { integrity_full_check = true; file_size = recovered_size size e v })

  -- The bytes of the header, without those of the module.
  unfoldable pub base_header : Evfs E R S → E → Bytes
  base_header v e =
      magic_number
      ++ u16_bytes v.version_number
      ++ u16_bytes (suite_code (mods.get_encryption_suite e))
      ++ u16_bytes (v.chunk_size / 16)
      ++ (0 ∷ 0 ∷ [])
      ++ u64_bytes v.file_size

  -- The whole header; the object keeps the first part.
  unfoldable pub make_header : Run E R S Bytes
  make_header = do
    v ← get
    elim v.encryption [
      | none ↦ throw evfs
      | some e ↦ (do
        let header = base_header v e
        modify (λ v. record v { r_header = header })
        module_header ← lift (mods.get_module_file_header e header)
        pure (header ++ module_header))
    ]

module _ {E R S : Type 0} (mods : Modules E R) (m : Methods S) where
  -- `size` bytes at an offset, into a buffer of zeros; they must all be there.
  unfoldable pub read_exactly : (size offset : ℕ) → Run E R S Bytes
  read_exactly size offset = do
    (ret, bytes) ← on_file (Vfs.read m size (pos offset))
    if ret ==ℤ pos size then pure (overwrite 0 bytes (zeros size)) else throw evfs

  -- What follows where the magic number was found.
  unfoldable pub parse_fields : (size : ℕ) → Bytes → Run E R S (Unit {0})
  parse_fields size header = do
    modify (with_fields header)
    v ← get
    let suite = big_endian 2 15 header 0
    let data_size = mods.module_file_header_size suite
    module_data ←
        if data_size == 0
        then pure []
        else read_exactly data_size (base_file_header_size + v.header_extension_size)
    e ← randomly (mods.make_from suite module_data)
    modify (λ v. record v { encryption = some e })
    check_size mods size e

  unfoldable pub parse_header : Run E R S (Unit {0})
  parse_header = do
    ret ← on_file (Vfs.size m)
    if ltb_ℤ ret (pos base_file_header_size) then is_plain (to_u64 ret) else do
      header ← read_exactly base_file_header_size 0
      modify (λ v. record v { r_header = header })
      if equal (take (length magic_number) header) magic_number
          then parse_fields (to_u64 ret) header
          else is_plain (to_u64 ret)

  unfoldable pub write_header : Run E R S (Unit {0})
  write_header = do
    header ← make_header mods
    ret ← on_file (Vfs.write m header (pos 0))
    if ret ==ℤ pos (length header) then pure tt else throw evfs
