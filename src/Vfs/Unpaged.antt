-- ===== src/Vfs/Unpaged.antt =====
-- Reads and writes of src/vfs/vfs.c on a file on which nothing is printed: its page is empty.
use bctoolbox.Common.{ℕ, ◌≡◌, refl, length, take, drop, eq→==, Bool-cases, inl, inr}
use bctoolbox.Common.Int.{pos}
use bctoolbox.Vfs
use bctoolbox.Vfs.{Bytes, File, Methods, write_flushed}
use bctoolbox.Vfs.Contents.{Stores, Measures}
use bctoolbox.Vfs.Refine.{write_flushed-stores}

module _ {S : Type 0} (m : Methods S) (contents : S → Bytes) (stores : Stores m contents) where
  abbrev pub after_read : File S → (n o : ℕ) → File S
  after_read f n o = record f { disk = (m.read_at f.disk n (pos o)).1 }

  abbrev pub after_write : File S → Bytes → ℕ → File S
  after_write f buf o = record f { disk = (m.write_at f.disk buf (pos o)).1; g_size = 0 }

  pub read-unpaged :
      (f : File S) (n o : ℕ)
      → f.f_size ≡ 0
      → Vfs.read m n (pos o) f ≡ (
        (pos (length (take n (drop o (contents f.disk)))), take n (drop o (contents f.disk))),
        after_read f n o,
      )
  unfolding Vfs.read Vfs.flush
  read-unpaged f n o empty = rw (eq→== f.f_size 0 empty, stores.gives f.disk n o) refl

  pub write-unpaged :
      (f : File S) (buf : Bytes) (o : ℕ)
      → f.f_size ≡ 0
      → Vfs.write m buf (pos o) f ≡ (pos (length buf), after_write f buf o)
  unfolding Vfs.write Vfs.flush
  write-unpaged f buf o empty =
      rw (eq→== f.f_size 0 empty) (write_flushed-stores m contents stores buf (pos o) o f refl)

module _ {S : Type 0} (m : Methods S) (contents : S → Bytes) (measures : Measures m contents) where
  abbrev pub after_size : File S → File S
  after_size f = record f { disk = (m.file_size f.disk).1 }

  pub size-unpaged :
      (f : File S) → f.f_size ≡ 0 → Vfs.size m f ≡ (pos (length (contents f.disk)), after_size f)
  unfolding Vfs.size Vfs.flush
  size-unpaged f empty = rw (eq→== f.f_size 0 empty, measures.gives_size f.disk) refl

module _ {S : Type 0} (m : Methods S) where
  pub close-unpaged : (f : File S) → f.f_size ≡ 0 → (Vfs.close m f).1.disk ≡ (m.close_file f.disk).1
  unfolding Vfs.close Vfs.flush
  close-unpaged f empty = rw (eq→== f.f_size 0 empty) (elim (Bool-cases (Vfs.is_encrypted m f)) [
    | inl secret ↦ rw secret refl
    | inr clear ↦ rw clear refl
  ])

  abbrev pub after_truncate : File S → ℕ → File S
  after_truncate f n = record f { disk = (m.truncate_file f.disk (pos n)).1 }

  pub truncate-unpaged :
      (f : File S) (n : ℕ) → f.f_size ≡ 0 → (Vfs.truncate m (pos n) f).1 ≡ after_truncate f n
  unfolding Vfs.truncate Vfs.flush
  truncate-unpaged f n empty = rw (eq→== f.f_size 0 empty) refl
