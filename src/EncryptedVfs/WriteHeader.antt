-- ===== src/EncryptedVfs/WriteHeader.antt =====
-- What `writeHeader` of src/vfs/vfs_encrypted.cc does to a file that holds chunks: their place behind
-- the header stays as it is.
use bctoolbox.Common.{
  ◌+◌, ◌<◌, ◌≡◌, refl, sym, ap, ◌∙◌, some, ◌++◌, arith, length, drop, length-append, eq→==,
}
use bctoolbox.Vfs.{Bytes, Methods}
use bctoolbox.Vfs.Contents.{patch, Stores}
use bctoolbox.Vfs.Patch.{drop-patch_front, patch-front, stored-patch}
use bctoolbox.Vfs.Unpaged.{after_write, write-unpaged}
use bctoolbox.EncryptedVfs.{returns, Modules, Evfs, get_chunk_offset}
use bctoolbox.EncryptedVfs.Header.{base_header, make_header, write_header}
use bctoolbox.EncryptedVfs.Contents.{IsCipher}

module _ {E R S : Type 0} (mods : Modules E R) (m : Methods S) (contents : S → Bytes)
    (stores : Stores m contents) (e : E) (cipher : IsCipher mods e) where
  -- The object where the module is known.
  abbrev of_module : Evfs E R S → Evfs E R S
  of_module v = record v { encryption = some e }

  length-base_header : (v : Evfs E R S) → length (base_header mods v e) ≡ 29
  unfolding base_header
  length-base_header v = refl

  abbrev pub module_part : Evfs E R S → Bytes
  module_part v = (cipher.module_header (base_header mods v e)).0

  abbrev pub header_of : Evfs E R S → Bytes
  header_of v = base_header mods v e ++ module_part v

  pub length-header_of :
      (v : Evfs E R S) → length (header_of v) ≡ 29 + mods.get_module_file_header_size e
  length-header_of v = omega (
    arith,
    length-append (base_header mods v e) (module_part v),
    length-base_header v,
    (cipher.module_header (base_header mods v e)).2,
  )

  abbrev pub with_header : Evfs E R S → Evfs E R S
  with_header v = record v {
    r_header = base_header mods v e;
    file_std = after_write m contents stores v.file_std (header_of v) 0;
  }

  make_header_of :
      (v : Evfs E R S)
      → make_header mods (of_module v) ≡ (
        returns (header_of (of_module v)),
        record (of_module v) { r_header = base_header mods (of_module v) e },
      )
  unfolding make_header
  make_header_of v = rw (cipher.module_header (base_header mods (of_module v) e)).1 refl

  write_header_of :
      (v : Evfs E R S)
      → v.file_std.f_size ≡ 0
      → write_header mods m (of_module v) ≡ (returns tt, with_header (of_module v))
  unfolding write_header make_header
  write_header_of v unpaged =
      let w = of_module v in
      let n = length (header_of w) in
      rw
        (
          (cipher.module_header (base_header mods w e)).1,
          write-unpaged m contents stores v.file_std (header_of w) 0 unpaged,
          eq→== n n refl,
        )
        refl

  as_module : (v : Evfs E R S) → v.encryption ≡ some e → v ≡ of_module v
  as_module v known = λ i. record v { encryption = known i }

  pub make_header-header_of :
      (v : Evfs E R S)
      → v.encryption ≡ some e
      → make_header mods v ≡ (returns (header_of v), record v { r_header = base_header mods v e })
  make_header-header_of v known =
      let same = as_module v known in
      ap (make_header mods) same
      ∙ make_header_of v
      ∙ ap (λ w. (returns (header_of w), record w { r_header = base_header mods w e })) (sym same)

  pub write_header-with_header :
      (v : Evfs E R S)
      → v.encryption ≡ some e
      → v.file_std.f_size ≡ 0
      → write_header mods m v ≡ (returns tt, with_header v)
  write_header-with_header v known unpaged =
      let same = as_module v known in
      ap (write_header mods m) same
      ∙ write_header_of v unpaged
      ∙ ap (λ w. (returns tt, with_header w)) (sym same)

  -- Without a header extension the chunks start where the header ends.
  pub body-with_header :
      (v : Evfs E R S)
      → v.header_extension_size ≡ 0
      → drop (get_chunk_offset mods v e 0) (contents (with_header v).file_std.disk)
        ≡ drop (get_chunk_offset mods v e 0) (contents v.file_std.disk)
  unfolding get_chunk_offset
  body-with_header v no_extension =
      let header = header_of v in
      let d = contents v.file_std.disk in
      let place : get_chunk_offset mods v e 0 ≡ length header = omega (arith, length-header_of v) in
      let some_header : 0 < length header = omega (arith, length-header_of v) in
      ap (drop (get_chunk_offset mods v e 0))
        (stores.holds v.file_std.disk header 0 ∙ stored-patch 0 header d some_header)
      ∙ ap (λ n. drop n (patch 0 header d)) place
      ∙ drop-patch_front header d
      ∙ ap (λ n. drop n d) (sym place)

  -- The file is the header, and what was behind its place.
  pub contents-with_header :
      (v : Evfs E R S)
      → v.header_extension_size ≡ 0
      → contents (with_header v).file_std.disk
        ≡ header_of v ++ drop (get_chunk_offset mods v e 0) (contents v.file_std.disk)
  unfolding get_chunk_offset
  contents-with_header v no_extension =
      let header = header_of v in
      let d = contents v.file_std.disk in
      let place : length header ≡ get_chunk_offset mods v e 0 = omega (arith, length-header_of v) in
      let some_header : 0 < length header = omega (arith, length-header_of v) in
      stores.holds v.file_std.disk header 0
      ∙ stored-patch 0 header d some_header
      ∙ patch-front header d
      ∙ ap (λ n. header ++ drop n d) place

  pub header_of-with_header : (v : Evfs E R S) → header_of (with_header v) ≡ header_of v
  unfolding base_header
  header_of-with_header v = refl
