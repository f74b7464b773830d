-- ===== src/EncryptedVfs/CutDown.antt =====
-- The last steps of `truncate` of src/vfs/vfs_encrypted.cc where it makes a file shorter: the chunks that
-- are left stay as they are.
use bctoolbox.Common.{
  ℕ, ◌+◌, ◌^◌, ◌<◌, ◌≤◌, ◌≡◌, refl, sym, ap, ◌∙◌, some, List, length, take, drop,
}
use bctoolbox.Common.Int.{pos}
use bctoolbox.Common.Slices.{drop-take}
use bctoolbox.Vfs
use bctoolbox.Vfs.{Bytes, File, Methods}
use bctoolbox.Vfs.Contents.{Stores, Shortens}
use bctoolbox.Vfs.Unpaged.{after_truncate, truncate-unpaged}
use bctoolbox.EncryptedVfs.{
  Result, returns, Modules, Evfs, Run, modify, get, on_file, ◌>>=◌, ◌>>◌, raw_file_size,
  get_chunk_offset,
}
use bctoolbox.EncryptedVfs.Header.{write_header}
use bctoolbox.EncryptedVfs.Blocks.{flat}
use bctoolbox.EncryptedVfs.Contents.{Chunk, text_of, IsCipher, Holds}
use bctoolbox.EncryptedVfs.WriteHeader.{with_header, write_header-with_header, body-with_header}
use bctoolbox.EncryptedVfs.Sizes.{raw_file_size_chunks}
use bctoolbox.EncryptedVfs.Cut.{AreLeft}

module _ {E R S : Type 0} (mods : Modules E R) (m : Methods S) (contents : S → Bytes)
    (stores : Stores m contents) (shortens : Shortens m contents) (e : E)
    (cipher : IsCipher mods e) where
  -- What comes last: the new size, the cut of the file below, and the header.
  abbrev pub last_steps : ℕ → Run E R S (Unit {0})
  last_steps n = do
    modify (λ v. record v { file_size = n })
    w ← get
    on_file (Vfs.truncate m (pos (raw_file_size mods w e)))
    write_header mods m

  module _ (u : Evfs E R S) (n : ℕ) (text raw : Bytes) (ys : List Chunk)
      (known : u.encryption ≡ some e) (no_extension : u.header_extension_size ≡ 0)
      (unpaged : u.file_std.f_size ≡ 0) (chunk : 0 < u.chunk_size)
      (left : AreLeft mods e u.chunk_size chunk text raw ys) (size : n ≡ length text)
      (number : length ys < 2 ^ 32)
      (room : get_chunk_offset mods u e 0 + length raw ≤ length (contents u.file_std.disk))
      (small : get_chunk_offset mods u e 0 + length raw < 2 ^ 64)
      (there : take (length raw) (drop (get_chunk_offset mods u e 0) (contents u.file_std.disk))
        ≡ raw) where
    abbrev place : ℕ
    place = get_chunk_offset mods u e 0

    abbrev shortened : Evfs E R S
    shortened = record u {
      file_size = n;
      file_std = after_truncate m u.file_std (place + length raw);
    }

    abbrev pub cut_down : Evfs E R S
    cut_down = with_header mods m contents stores e cipher shortened

    raw_size : raw_file_size mods (record u { file_size = n }) e ≡ place + length raw
    unfolding get_chunk_offset
    raw_size =
        raw_file_size_chunks mods (record u { file_size = n }) e ys chunk
          (size ∙ ap length (sym left.texts)) left.chunks left.blocks (rw left.raws small)
        ∙ ap (λ s. place + length s) left.raws

    last_steps-cut_down : last_steps n u ≡ (returns tt, cut_down)
    last_steps-cut_down =
        rw (raw_size, truncate-unpaged m u.file_std (place + length raw) unpaged)
          (write_header-with_header mods m contents stores e cipher shortened known unpaged)

    body-cut_down : drop place (contents cut_down.file_std.disk) ≡ raw
    unfolding get_chunk_offset
    body-cut_down =
        body-with_header mods m contents stores e cipher shortened no_extension
        ∙ ap (drop place) (shortens.cuts_to u.file_std.disk (place + length raw) room)
        ∙ drop-take place (length raw) (contents u.file_std.disk)
        ∙ there

    cut_down-Holds : Holds mods m contents cut_down e ys
    unfolding get_chunk_offset
    cut_down-Holds = record {
      encrypted = known;
      chunk = chunk;
      size = size ∙ ap length (sym left.texts);
      number = number;
      chunks = left.chunks;
      blocks = left.blocks;
      unpaged = unpaged;
      body = body-cut_down ∙ sym left.raws;
    }

    -- Both, of a call whose last steps these are.
    pub ends-cut_down :
        (run : Result (Unit {0}) × Evfs E R S)
        → run ≡ last_steps n u
        → (run.0 ≡ returns tt)
          × ((zs : List Chunk) × Holds mods m contents run.1 e zs × (flat text_of zs ≡ text))
    ends-cut_down run same =
        rw (same ∙ last_steps-cut_down) (refl, (ys, cut_down-Holds, left.texts))
