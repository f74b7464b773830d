-- ===== src/Tests/Modules.antt =====
-- The theorems about the encryption modules of src/vfs, over primitives that do little.
use bctoolbox.Common.{refl, some, [], ◌∷◌, arith}
use bctoolbox.Vfs.Open.{zeros}
use bctoolbox.Vfs.Patch.{length-zeros}
use bctoolbox.EncryptedVfs.Contents.{IsCipher}
use bctoolbox.EncryptedVfs.Dummy.{Dummy, Hmac, new_dummy}
use bctoolbox.EncryptedVfs.Dummy.Sealed.{IsReady}
use bctoolbox.EncryptedVfs.Aes.{Aes, Primitives}
use bctoolbox.EncryptedVfs.Suites.{of_dummy, of_aes, modules}
use bctoolbox.EncryptedVfs.Parsed.{IsReadBack}
use bctoolbox.EncryptedVfs.Suites.ReadBack.{IsKeyed, dummy-IsReadBack, aes-IsReadBack}
use bctoolbox.EncryptedVfs.Suites.Ciphers.{AreSound, HasKeys, dummy-IsCipher, aes-IsCipher}

abbrev toy_hmac : Hmac
toy_hmac key text n = zeros n

abbrev toy : Primitives (Unit {0})
toy = record {
  randomize = λ n g. (zeros n, g);
  hmac = λ key text. zeros 32;
  hkdf = λ salt key info n. zeros n;
  aead_encrypt = λ key iv text. (text, zeros 16);
  aead_decrypt = λ key iv cipher tag. some cipher;
}

abbrev keyed_dummy : Dummy
unfolding new_dummy
keyed_dummy = record new_dummy { secret = zeros 16 }

keyed_dummy-IsReady : IsReady keyed_dummy
unfolding new_dummy keyed_dummy
keyed_dummy-IsReady = record { header_size = refl; secret_size = refl }

dummy-IsCipher_example : IsCipher (modules toy_hmac toy) (of_dummy keyed_dummy)
dummy-IsCipher_example =
    dummy-IsCipher toy_hmac toy (λ key text n. length-zeros n) keyed_dummy keyed_dummy-IsReady

abbrev keyed_aes : Aes
keyed_aes = record {
  file_salt = zeros 16;
  file_header_integrity = zeros 32;
  master_key = 1 ∷ [];
  header_key = 2 ∷ [];
}

toy-AreSound : AreSound toy_hmac toy
toy-AreSound = record {
  random_size = λ n g. length-zeros n;
  hmac_size = λ key text. refl;
  tag_size = λ key iv text. refl;
  cipher_size = λ key iv text. refl;
  opens = λ key iv text. refl;
}

keyed_aes-HasKeys : HasKeys toy_hmac toy keyed_aes
keyed_aes-HasKeys = record {
  salt_size = refl;
  some_master_key = omega arith;
  some_header_key = omega arith;
}

aes-IsCipher_example : IsCipher (modules toy_hmac toy) (of_aes keyed_aes)
aes-IsCipher_example = aes-IsCipher toy_hmac toy toy-AreSound keyed_aes keyed_aes-HasKeys

dummy-IsReadBack_example : IsReadBack (modules toy_hmac toy) (of_dummy keyed_dummy) (zeros 16)
unfolding keyed_dummy
dummy-IsReadBack_example =
    dummy-IsReadBack toy_hmac toy (λ key text n. length-zeros n) keyed_dummy keyed_dummy-IsReady

-- With the keys of a secret.
abbrev secret_aes : Aes
secret_aes = record keyed_aes { master_key = zeros 32; header_key = zeros 32 }

secret_aes-IsKeyed : IsKeyed toy_hmac toy secret_aes
secret_aes-IsKeyed = record {
  has_keys = record {
    salt_size = refl;
    some_master_key = omega arith;
    some_header_key = omega arith;
  };
  secret_size = refl;
  derived = refl;
}

aes-IsReadBack_example : IsReadBack (modules toy_hmac toy) (of_aes secret_aes) (zeros 32)
aes-IsReadBack_example = aes-IsReadBack toy_hmac toy toy-AreSound secret_aes secret_aes-IsKeyed
