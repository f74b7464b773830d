-- ===== src/EncryptedVfs/Parsed.antt =====
-- `parseHeader` of src/vfs/vfs_encrypted.cc on a file whose header `writeHeader` wrote.
use bctoolbox.Common.{
  ℕ, ◌+◌, ◌%◌, ◌^◌, ◌<◌, ◌≡◌, ◌≢◌, refl, ap, ◌∙◌, some, ◌++◌, arith, length, take, drop, append-nil,
  length-append, eq→==, ne→==, ◌==◌, false, true,
}
use bctoolbox.Common.Slices.{take_exactly, drop_exactly, drop-all}
use bctoolbox.Common.Int.{pos, ltb_ℤ}
use bctoolbox.Vfs
use bctoolbox.Vfs.{Bytes, File, Methods}
use bctoolbox.Vfs.Open.{zeros}
use bctoolbox.Vfs.Contents.{Stores, Measures}
use bctoolbox.Vfs.Patch.{length-zeros}
use bctoolbox.Vfs.Unpaged.{after_read, read-unpaged, after_size, size-unpaged}
use bctoolbox.EncryptedVfs.{returns, suite_code, Modules, Evfs, raw_file_size}
use bctoolbox.EncryptedVfs.Header.{
  read_exactly, parse_header, parse_fields, check_size, recovered_size, base_header, magic_number,
}
use bctoolbox.EncryptedVfs.Contents.{IsCipher}
use bctoolbox.EncryptedVfs.HeaderFields.{
  Fits, length-base_header, base_header-magic_number, base_header-suite, with_fields-base_header,
}

module _ {E R : Type 0} (mods : Modules E R) (e : E) (secret : Bytes) where
  -- What a module made of the other's part of a header does once it has the secret.
  pub record Reread (raw_header header : Bytes) (g : R) : Type 0 where
    pub again : E
    pub drawn : R
    pub made :
        mods.make_from (suite_code (mods.get_encryption_suite e)) header g ≡ (returns again, drawn)
    pub chunk_header : mods.get_chunk_header_size again ≡ mods.get_chunk_header_size e
    pub file_header : mods.get_module_file_header_size again ≡ mods.get_module_file_header_size e
    pub keyed : E
    pub keys : mods.set_module_secret_material secret again ≡ returns keyed
    pub passes : mods.check_integrity keyed raw_header ≡ returns true
    pub keyed_chunk_header : mods.get_chunk_header_size keyed ≡ mods.get_chunk_header_size e
    pub keyed_file_header :
        mods.get_module_file_header_size keyed ≡ mods.get_module_file_header_size e
    pub decrypts :
        (i : ℕ) (raw : Bytes) → mods.decrypt_chunk keyed i raw ≡ mods.decrypt_chunk e i raw
    pub cipher : IsCipher mods keyed

  -- A module can be made again from its part of a header and the secret.
  pub record IsReadBack : Type 0 where
    pub header_size :
        mods.module_file_header_size (suite_code (mods.get_encryption_suite e))
        ≡ mods.get_module_file_header_size e
    pub some_header : 0 < mods.get_module_file_header_size e
    pub read_back :
        (raw_header header : Bytes) (g : R)
        → mods.get_module_file_header e raw_header ≡ returns header
        → Reread raw_header header g

overwrite-zeros : (n : ℕ) (s : Bytes) → length s ≡ n → Vfs.overwrite 0 s (zeros n) ≡ s
overwrite-zeros n s h =
    ap (λ t. s ++ t) (drop-all (0 + length s) (zeros n) (omega (arith, length-zeros n)))
    ∙ append-nil s

module _ {E R S : Type 0} (mods : Modules E R) (m : Methods S) (contents : S → Bytes)
    (stores : Stores m contents) (measures : Measures m contents) where
  pub read_exactly-there :
      (v : Evfs E R S) (n o : ℕ) (s : Bytes)
      → v.file_std.f_size ≡ 0
      → take n (drop o (contents v.file_std.disk)) ≡ s
      → length s ≡ n
      → read_exactly mods m n o v
        ≡ (returns s, record v { file_std = after_read m contents stores v.file_std n o })
  unfolding read_exactly
  read_exactly-there v n o s unpaged there size =
      rw
        (
          read-unpaged m contents stores v.file_std n o unpaged,
          there,
          eq→== (length s) n size,
          overwrite-zeros n s size,
        )
        refl

  -- The object where the first bytes of a header were read.
  abbrev pub found : Bytes → Evfs E R S → Evfs E R S
  found header w = record w {
    r_header = header;
    file_std = after_read m contents stores (after_size m contents measures w.file_std) 29 0;
  }

  parse_header-found :
      (w : Evfs E R S) (header rest : Bytes)
      → w.file_std.f_size ≡ 0
      → contents w.file_std.disk ≡ header ++ rest
      → length header ≡ 29
      → take (length magic_number) header ≡ magic_number
      → parse_header mods m w
        ≡ parse_fields mods m (length (header ++ rest) % 2 ^ 64) header (found header w)
  unfolding parse_header
  parse_header-found w header rest unpaged there size magic =
      let f = after_size m contents measures w.file_std in
      let first =
        read_exactly-there (record w { file_std = f }) 29 0 header unpaged
          (ap (take 29) (measures.keeps_size w.file_std.disk ∙ there)
            ∙ take_exactly 29 header rest size)
          size in
      let long : ltb_ℤ (pos (length (header ++ rest))) (pos 29) ≡ false =
        ground (arith, length-append header rest) in
      rw (size-unpaged m contents measures w.file_std unpaged, there, long, first, magic) refl

  module _ (e : E) (secret : Bytes) (readback : IsReadBack mods e secret) (v : Evfs E R S)
      (fits : Fits mods e v) (no_extension : v.header_extension_size ≡ 0)
      (some_chunk : 0 < v.chunk_size) (h : Bytes)
      (made : mods.get_module_file_header e (base_header mods v e) ≡ returns h)
      (h_size : length h ≡ mods.get_module_file_header_size e) where
    abbrev pub base : Bytes
    base = base_header mods v e

    abbrev suite : ℕ
    suite = suite_code (mods.get_encryption_suite e)

    abbrev pub reread : (g : R) → Reread mods e secret base h g
    reread g = readback.read_back base h g made

    -- The object with the fields of the header, and with its module.
    abbrev pub fields : Evfs E R S → Evfs E R S
    fields u = record u {
      version_number = v.version_number;
      chunk_size = v.chunk_size;
      header_extension_size = 0;
      file_size = v.file_size;
    }

    abbrev pub parsed : Evfs E R S → Evfs E R S
    parsed u = record (fields u) {
      encryption = some (reread u.rng).again;
      file_std = after_read m contents stores u.file_std (mods.get_module_file_header_size e) 29;
      rng = (reread u.rng).drawn;
    }

    same_raw_size :
        (u : Evfs E R S)
        → raw_file_size mods (parsed u) (reread u.rng).again ≡ raw_file_size mods v e
    unfolding raw_file_size
    same_raw_size u = let r = reread u.rng in rw (r.chunk_header, r.file_header, no_extension) refl

    check_size-parsed :
        (u : Evfs E R S)
        → check_size mods (raw_file_size mods v e) (reread u.rng).again (parsed u)
          ≡ (returns tt, parsed u)
    unfolding check_size
    check_size-parsed u =
        let size = raw_file_size mods v e in
        rw (ne→== v.chunk_size 0 (λ z. omega arith), same_raw_size u, eq→== size size refl) refl

    -- What is left behind the fields is the check of the size.
    parse_fields-size :
        (u : Evfs E R S) (size : ℕ) (body : Bytes)
        → u.file_std.f_size ≡ 0
        → contents u.file_std.disk ≡ base ++ (h ++ body)
        → parse_fields mods m size base u ≡ check_size mods size (reread u.rng).again (parsed u)
    unfolding parse_fields
    parse_fields-size u size body unpaged there =
        let n = mods.get_module_file_header_size e in
        let some_size : (n == 0) ≡ false = ne→== n 0 (λ z. omega (arith, readback.some_header)) in
        let part =
          read_exactly-there (fields u) n 29 h unpaged
            (ap (λ s. take n (drop 29 s)) there
              ∙ ap (take n) (drop_exactly 29 base (h ++ body) (length-base_header mods e v))
              ∙ take_exactly n h body h_size)
            h_size in
        rw
          (
            with_fields-base_header mods e v fits u,
            base_header-suite mods e v fits,
            readback.header_size,
            some_size,
            part,
            (reread u.rng).made,
          )
          refl

    pub parse_header-size :
        (w : Evfs E R S) (body : Bytes)
        → w.file_std.f_size ≡ 0
        → contents w.file_std.disk ≡ base ++ (h ++ body)
        → parse_header mods m w
          ≡ check_size mods
              (length (base ++ (h ++ body)) % 2 ^ 64)
              (reread w.rng).again
              (parsed (found base w))
    parse_header-size w body unpaged there =
        let size = length (base ++ (h ++ body)) % 2 ^ 64 in
        parse_header-found w base (h ++ body) unpaged there (length-base_header mods e v)
          (base_header-magic_number mods e v)
        ∙ parse_fields-size (found base w) size body unpaged (
            stores.keeps (after_size m contents measures w.file_std).disk 29 0
            ∙ measures.keeps_size w.file_std.disk
            ∙ there)

    pub parse_header-parsed :
        (w : Evfs E R S) (body : Bytes)
        → w.file_std.f_size ≡ 0
        → contents w.file_std.disk ≡ base ++ (h ++ body)
        → length (base ++ (h ++ body)) % 2 ^ 64 ≡ raw_file_size mods v e
        → parse_header mods m w ≡ (returns tt, parsed (found base w))
    parse_header-parsed w body unpaged there size =
        parse_header-size w body unpaged there
        ∙ ap (λ n. check_size mods n (reread w.rng).again (parsed (found base w))) size
        ∙ check_size-parsed (found base w)

    -- The object where the size of the file was found to be another one.
    abbrev pub recovered : ℕ → Evfs E R S → Evfs E R S
    recovered size u = record (parsed u) {
      integrity_full_check = true;
      file_size = recovered_size mods size (reread u.rng).again (parsed u);
    }

    pub parse_header-recovered :
        (w : Evfs E R S) (body : Bytes)
        → w.file_std.f_size ≡ 0
        → contents w.file_std.disk ≡ base ++ (h ++ body)
        → raw_file_size mods v e ≢ length (base ++ (h ++ body)) % 2 ^ 64
        → parse_header mods m w
          ≡ (returns tt, recovered (length (base ++ (h ++ body)) % 2 ^ 64) (found base w))
    unfolding check_size
    parse_header-recovered w body unpaged there other =
        let size = length (base ++ (h ++ body)) % 2 ^ 64 in
        parse_header-size w body unpaged there
        ∙ rw
            (
              ne→== v.chunk_size 0 (λ z. omega arith),
              same_raw_size (found base w),
              ne→== (raw_file_size mods v e) size other,
            )
            refl
