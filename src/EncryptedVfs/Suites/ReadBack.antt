-- ===== src/EncryptedVfs/Suites/ReadBack.antt =====
-- The encryption modules of src/vfs/vfs_encrypted.cc can be made again from their part of a header and
-- the secret.
use bctoolbox.Common.{
  ℕ, ◌≡◌, refl, sym, ap, ◌∙◌, [], ◌++◌, arith, length, take, length-append, eq→==, ne→==,
}
use mathlib.Core.Path.{subst}
use bctoolbox.Common.Slices.{take_exactly, drop_exactly}
use bctoolbox.Vfs.{Bytes}
use bctoolbox.EncryptedVfs.{Result, returns, throws}
use bctoolbox.EncryptedVfs.Dummy
use bctoolbox.EncryptedVfs.Dummy.{Dummy, Hmac}
use bctoolbox.EncryptedVfs.Dummy.Sealed.{IsReady, keyed-ready, equal_self}
use bctoolbox.EncryptedVfs.Aes
use bctoolbox.EncryptedVfs.Aes.{Aes, Primitives, header_info}
use bctoolbox.EncryptedVfs.Suites.{of_dummy, of_aes, modules, parse_module, module_file_header_size}
use bctoolbox.EncryptedVfs.Suites.Ciphers.{AreSound, HasKeys, dummy-IsCipher, aes-IsCipher}
use bctoolbox.EncryptedVfs.Parsed.{Reread, IsReadBack}

abbrev bytes_of : Result Bytes → Bytes
bytes_of (returns s) = s
bytes_of (throws x) = []

module _ {R : Type 0} (hmac : Hmac) (p : Primitives R) where
  module _ (hmac_size : (key text : Bytes) (n : ℕ) → length (hmac key text n) ≡ n) (d : Dummy)
      (ready : IsReady d) where
    abbrev tag_of : Bytes → Bytes
    tag_of raw = hmac (take 16 d.secret) (raw ++ d.file_header) 8

    -- Made of the header, and with the secret.
    abbrev bare : Bytes → Dummy
    bare raw = record {
      file_header = d.file_header;
      file_header_integrity = tag_of raw;
      secret = [];
    }

    abbrev with_secret : Bytes → Dummy
    with_secret raw = record (bare raw) { secret = d.secret }

    dummy_header :
        (raw : Bytes)
        → Dummy.get_module_file_header hmac d raw ≡ returns (tag_of raw ++ d.file_header)
    unfolding Dummy.get_module_file_header Dummy.header_tag
    dummy_header raw = rw (keyed-ready hmac hmac_size d ready (raw ++ d.file_header)) refl

    parse_dummy-header :
        (raw : Bytes) → Dummy.parse_dummy (tag_of raw ++ d.file_header) ≡ returns (bare raw)
    unfolding Dummy.parse_dummy
    parse_dummy-header raw =
        let tag = tag_of raw in
        let tag_size = hmac_size (take 16 d.secret) (raw ++ d.file_header) 8 in
        let size : length (tag ++ d.file_header) ≡ 16 =
          omega (arith, length-append tag d.file_header, tag_size, ready.header_size) in
        rw
          (
            eq→== _ _ size,
            take_exactly 8 tag d.file_header tag_size,
            drop_exactly 8 tag d.file_header tag_size,
          )
          refl

    dummy-Reread :
        (raw : Bytes) (g : R)
        → Reread (modules hmac p) (of_dummy d) d.secret raw (tag_of raw ++ d.file_header) g
    unfolding modules parse_module Dummy.set_secret Dummy.check_integrity Dummy.header_tag
        Dummy.decrypt_chunk Dummy.check_chunk Dummy.chunk_integrity_tag Dummy.keyed Dummy.xor_key
    dummy-Reread raw g =
        let ready' : IsReady (with_secret raw) = record {
          header_size = ready.header_size;
          secret_size = ready.secret_size;
        } in
        record {
          again = of_dummy (bare raw);
          drawn = g;
          made = rw (parse_dummy-header raw) refl;
          chunk_header = refl;
          file_header = refl;
          keyed = of_dummy (with_secret raw);
          keys = rw (eq→== _ _ ready.secret_size) refl;
          passes =
              rw (keyed-ready hmac hmac_size (with_secret raw) ready' (raw ++ d.file_header))
                (ap returns (equal_self (tag_of raw)));
          keyed_chunk_header = refl;
          keyed_file_header = refl;
          decrypts = λ i chunk. refl;
          cipher = dummy-IsCipher hmac p hmac_size (with_secret raw) ready';
        }

    -- The module for tests, with its secret set, is made again from its part of a header and that
    -- secret: it passes the check of the header, decrypts the same chunks, and is a cipher.
    pub dummy-IsReadBack : IsReadBack (modules hmac p) (of_dummy d) d.secret
    unfolding modules module_file_header_size
    dummy-IsReadBack = record {
      header_size = refl;
      some_header = omega arith;
      read_back = λ raw header g made.
          subst (λ s. Reread (modules hmac p) (of_dummy d) d.secret raw s g)
            (ap bytes_of (sym (dummy_header raw) ∙ made)) (dummy-Reread raw g);
    }

  -- The keys come from the salt and a secret of the right size.
  pub record IsKeyed (a : Aes) : Type 0 where
    pub has_keys : HasKeys hmac p a
    pub secret_size : length a.master_key ≡ 32
    pub derived : p.hkdf a.file_salt a.master_key header_info 32 ≡ a.header_key

  module _ (sound : AreSound hmac p) (a : Aes) (keyed : IsKeyed a) where
    abbrev mac_of : Bytes → Bytes
    mac_of raw = p.hmac a.header_key raw

    abbrev unkeyed : Bytes → Aes
    unkeyed raw = record {
      file_salt = a.file_salt;
      file_header_integrity = mac_of raw;
      master_key = [];
      header_key = [];
    }

    abbrev with_keys : Bytes → Aes
    with_keys raw = record (unkeyed raw) { master_key = a.master_key; header_key = a.header_key }

    aes_header :
        (raw : Bytes) → Aes.get_module_file_header p a raw ≡ returns (mac_of raw ++ a.file_salt)
    unfolding Aes.get_module_file_header
    aes_header raw = rw (ne→== (length a.header_key) 0 keyed.has_keys.some_header_key) refl

    parse_aes-header :
        (raw : Bytes) → Aes.parse_aes (mac_of raw ++ a.file_salt) ≡ returns (unkeyed raw)
    unfolding Aes.parse_aes
    parse_aes-header raw =
        let mac = mac_of raw in
        let mac_size = sound.hmac_size a.header_key raw in
        let size : length (mac ++ a.file_salt) ≡ 48 =
          omega (arith, length-append mac a.file_salt, mac_size, keyed.has_keys.salt_size) in
        rw
          (
            eq→== _ _ size,
            take_exactly 32 mac a.file_salt mac_size,
            drop_exactly 32 mac a.file_salt mac_size,
          )
          refl

    aes-Reread :
        (raw : Bytes) (g : R)
        → Reread (modules hmac p) (of_aes a) a.master_key raw (mac_of raw ++ a.file_salt) g
    unfolding modules parse_module Aes.set_master_key Aes.check_integrity Aes.decrypt_chunk
        Aes.derive_chunk_key
    aes-Reread raw g = record {
      again = of_aes (unkeyed raw);
      drawn = g;
      made = rw (parse_aes-header raw) refl;
      chunk_header = refl;
      file_header = refl;
      keyed = of_aes (with_keys raw);
      keys = rw (eq→== _ _ keyed.secret_size, keyed.derived) refl;
      passes =
          rw (ne→== (length a.header_key) 0 keyed.has_keys.some_header_key)
            (ap returns (equal_self (mac_of raw)));
      keyed_chunk_header = refl;
      keyed_file_header = refl;
      decrypts = λ i chunk. refl;
      cipher = aes-IsCipher hmac p sound (with_keys raw) (record {
        salt_size = keyed.has_keys.salt_size;
        some_master_key = keyed.has_keys.some_master_key;
        some_header_key = keyed.has_keys.some_header_key;
      });
    }

    -- The module of AES-GCM, with the keys of a secret of 32 bytes, over sound primitives, is made
    -- again from its part of a header and that secret: it passes the check of the header, decrypts the
    -- same chunks, and is a cipher.
    pub aes-IsReadBack : IsReadBack (modules hmac p) (of_aes a) a.master_key
    unfolding modules module_file_header_size
    aes-IsReadBack = record {
      header_size = refl;
      some_header = omega arith;
      read_back = λ raw header g made.
          subst (λ s. Reread (modules hmac p) (of_aes a) a.master_key raw s g)
            (ap bytes_of (sym (aes_header raw) ∙ made)) (aes-Reread raw g);
    }
