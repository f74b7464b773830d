-- ===== src/EncryptedVfs/HeaderFields.antt =====
-- The fields of the header that `writeHeader` of src/vfs/vfs_encrypted.cc makes, as `parseHeader` reads
-- them.
use bctoolbox.Common.{ℕ, ◌*◌, ◌/◌, ◌%◌, ◌^◌, ◌<◌, ◌≡◌, refl, [], ◌++◌, arith, length, take}
use bctoolbox.Vfs.{Bytes}
use bctoolbox.EncryptedVfs.{
  Suite, unset, dummy, aes256gcm128_sha256, plain, suite_code, Modules, Evfs,
}
use bctoolbox.EncryptedVfs.Header.{
  magic_number, big_endian, u16_bytes, u64_bytes, base_header, with_fields,
}

pub suite_code-lt : (s : Suite) → suite_code s < 2 ^ 16
suite_code-lt unset = omega arith
suite_code-lt dummy = omega arith
suite_code-lt aes256gcm128_sha256 = omega arith
suite_code-lt plain = omega arith

pub big_endian-u16 : (n : ℕ) (s : Bytes) → n < 2 ^ 16 → big_endian 2 0 (u16_bytes n ++ s) 0 ≡ n
big_endian-u16 n s h = omega arith

big_endian-u64 : (n : ℕ) (s : Bytes) → n < 2 ^ 64 → big_endian 8 0 (u64_bytes n ++ s) 0 ≡ n
big_endian-u64 n s h = omega arith

module _ {E R S : Type 0} (mods : Modules E R) (e : E) (v : Evfs E R S) where
  -- A version, a block number and a size that the fields have room for.
  pub record Fits : Type 0 where
    pub version : v.version_number < 2 ^ 16
    pub blocks : v.chunk_size / 16 < 2 ^ 16
    pub whole_blocks : v.chunk_size % 16 ≡ 0
    pub size : v.file_size < 2 ^ 64

  pub length-base_header : length (base_header mods v e) ≡ 29
  unfolding base_header
  length-base_header = refl

  pub base_header-magic_number : take (length magic_number) (base_header mods v e) ≡ magic_number
  unfolding base_header
  base_header-magic_number = refl

  module _ (fits : Fits) where
    pub base_header-suite :
        big_endian 2 15 (base_header mods v e) 0 ≡ suite_code (mods.get_encryption_suite e)
    unfolding base_header
    base_header-suite =
        big_endian-u16 (suite_code (mods.get_encryption_suite e)) []
          (suite_code-lt (mods.get_encryption_suite e))

    pub with_fields-base_header :
        (w : Evfs E R S)
        → with_fields (base_header mods v e) w ≡ record w {
          version_number = v.version_number;
          chunk_size = v.chunk_size;
          header_extension_size = 0;
          file_size = v.file_size;
        }
    unfolding with_fields base_header
    with_fields-base_header w =
        let version = big_endian-u16 v.version_number [] fits.version in
        let chunk : big_endian 2 0 (u16_bytes (v.chunk_size / 16)) 0 * 16 ≡ v.chunk_size =
          omega (arith, big_endian-u16 (v.chunk_size / 16) [] fits.blocks, fits.whole_blocks) in
        let size = big_endian-u64 v.file_size [] fits.size in
        λ i. record w {
          version_number = version i;
          chunk_size = chunk i;
          header_extension_size = 0;
          file_size = size i;
        }
