-- ===== src/EncryptedVfs/Moved.antt =====
-- The loop of src/vfs/vfs_encrypted.cc that moves the text of a plain file into the chunks of a new one.
use bctoolbox.Common.{
  ℕ, zero, suc, ◌+◌, ◌*◌, ◌%◌, ◌^◌, ◌≤◌, ◌<◌, ◌≡◌, refl, sym, ap, ◌∙◌, Option, some, List, [], ◌∷◌,
  ◌++◌, arith, length, take, drop, length-append, length-take, length-drop, append-nil,
  append_assoc, ltb, if◌then◌else◌, Bool-cases, inl, inr, true, false, eq→==,
}
use bctoolbox.Common.Slices.{drop-drop, drop-all, take-all}
use bctoolbox.Vfs
use bctoolbox.Common.Int.{pos}
use bctoolbox.Vfs.{Bytes, File, Methods}
use bctoolbox.Vfs.Contents.{patch, Stores}
use bctoolbox.Vfs.Patch.{stored-patch, patch-inside, drop-patch}
use bctoolbox.Vfs.Unpaged.{after_read, read-unpaged, after_write, write-unpaged}
use bctoolbox.EncryptedVfs.{Result, returns, pure, Modules, Evfs, get_chunk_offset, raw_chunk_size}
use bctoolbox.EncryptedVfs.Blocks.{flat}
use bctoolbox.EncryptedVfs.Contents.{Chunk, raw_of, IsChunk, IsCipher}
use bctoolbox.EncryptedVfs.Loops.{Cut, Cut-first, block_size}
use bctoolbox.EncryptedVfs.Open.{migrate_loop}

module _ {E R S : Type 0} (mods : Modules E R) (m : Methods S) (contents : S → Bytes)
    (stores : Stores m contents) (e : E) (cipher : IsCipher mods e) (v : Evfs E R S) (text : Bytes)
    (size_eq : v.file_size ≡ length text) (some_chunk : 0 < v.chunk_size) where
  abbrev c : ℕ
  c = v.chunk_size

  abbrev size : ℕ
  size = block_size mods e c

  abbrev first : ℕ
  first = get_chunk_offset mods v e 0

  -- The object with another file below and another state of the generator.
  abbrev pub with_both : File S → R → Evfs E R S
  with_both f g = record v { file_std = f; rng = g }

  abbrev pub body_of : File S → Bytes
  body_of f = drop first (contents f.disk)

  -- What the loop leaves from the chunk `i` on, where the text is still to be moved from `rest` on.
  pub record Moves (run : Result (Option (File S)) × Evfs E R S) (i : ℕ) (rest : Bytes)
      (tmp : File S) : Type 0 where
    pub plain : File S
    pub generator : R
    pub moved : File S
    pub chunks : List Chunk
    pub done : run ≡ (returns (some moved), with_both plain generator)
    pub plain_unpaged : plain.f_size ≡ 0
    pub plain_kept : contents plain.disk ≡ text
    pub unpaged : moved.f_size ≡ 0
    pub body : body_of moved ≡ body_of tmp ++ flat raw_of chunks
    pub is_cut : Cut mods e c i rest chunks

  place-index : (i : ℕ) → get_chunk_offset mods v e i ≡ first + i * size
  unfolding get_chunk_offset raw_chunk_size
  place-index i = grind arith

  -- A chunk goes behind those that are there.
  body-after_write :
      (i : ℕ) (raw : Bytes) (tmp : File S)
      → length (body_of tmp) ≡ i * size
      → 0 < length raw
      → body_of (after_write m contents stores tmp raw (get_chunk_offset mods v e i))
        ≡ body_of tmp ++ raw
  body-after_write i raw tmp behind some_raw =
      let place = get_chunk_offset mods v e i in
      let d = contents tmp.disk in
      ap (drop first) (
        stores.holds tmp.disk raw place
        ∙ stored-patch place raw d some_raw
        ∙ ap (λ k. patch k raw d) (place-index i))
      ∙ drop-patch first (i * size) raw d
      ∙ patch-inside (i * size) raw (body_of tmp) (omega arith)
      ∙ ap (λ s. s ++ (raw ++ drop (i * size + length raw) (body_of tmp)))
          (take-all (i * size) (body_of tmp) (omega arith))
      ∙ ap (λ s. body_of tmp ++ (raw ++ s))
          (drop-all (i * size + length raw) (body_of tmp) (omega arith))
      ∙ ap (λ s. body_of tmp ++ s) (append-nil raw)

  abbrev piece_at : ℕ → Bytes
  piece_at offset = take c (drop offset text)

  abbrev extended : File S → Bytes → ℕ → File S
  extended tmp raw i = after_write m contents stores tmp raw (get_chunk_offset mods v e i)

  -- The state behind a round.
  abbrev round : File S → R → (i offset : ℕ) → Evfs E R S
  round f g i offset =
      with_both (after_read m contents stores f c offset)
        (mods.encrypt_chunk e i (piece_at offset) g).1

  module _ (k i offset : ℕ) (f : File S) (g : R) (tmp : File S) (raw : Bytes)
      (unpaged : f.f_size ≡ 0) (same : contents f.disk ≡ text) (tmp_unpaged : tmp.f_size ≡ 0)
      (behind : length (body_of tmp) ≡ i * size)
      (made : (mods.encrypt_chunk e i (piece_at offset) g).0 ≡ returns raw)
      (chunk : IsChunk mods e i (record { raw = raw; text = piece_at offset }))
      (small : suc i < 2 ^ 32) where
    abbrev piece : Bytes
    piece = piece_at offset

    abbrev here : Chunk
    here = record { raw = raw; text = piece }

    abbrev tmp1 : File S
    tmp1 = extended tmp raw i

    abbrev start : Result (Option (File S)) × Evfs E R S
    start = migrate_loop mods m (suc k) e offset i (some tmp) (with_both f g)

    migrate_loop-round :
        start
        ≡ (if ltb (offset + length piece) v.file_size
              then migrate_loop mods m k e (offset + length piece) (suc i) (some tmp1)
              else pure (some tmp1))
            (round f g i offset)
    unfolding migrate_loop get_chunk_offset raw_chunk_size
    migrate_loop-round =
        let f1 = after_read m contents stores f c offset in
        let read : Vfs.read m c (pos offset) f ≡ ((pos (length piece), piece), f1) =
          read-unpaged m contents stores f c offset unpaged
          ∙ ap (λ d. ((pos (length (take c (drop offset d))), take c (drop offset d)), f1)) same in
        let written =
          write-unpaged m contents stores tmp raw (get_chunk_offset mods v e i) tmp_unpaged in
        let next : (i + 1) % 2 ^ 32 ≡ suc i = omega arith in
        rw (read, made, written, eq→== (length raw) (length raw) refl, next) refl

    pub tmp1-body : body_of tmp1 ≡ body_of tmp ++ raw
    tmp1-body = body-after_write i raw tmp behind (omega (arith, chunk.header, chunk.some_text))

    Moves-last :
        ltb (offset + length piece) v.file_size ≡ false
        → length text ≤ offset + length piece
        → Moves start i (drop offset text) tmp
    Moves-last last whole = record {
      plain = after_read m contents stores f c offset;
      generator = (mods.encrypt_chunk e i piece g).1;
      moved = tmp1;
      chunks = here ∷ [];
      done = migrate_loop-round ∙ rw last refl;
      plain_unpaged = unpaged;
      plain_kept = stores.keeps f.disk c offset ∙ same;
      unpaged = tmp_unpaged;
      body = tmp1-body ∙ ap (λ s. body_of tmp ++ s) (sym (append-nil raw));
      is_cut = Cut-first mods e c i (drop offset text) raw [] chunk (record {
        chunks = tt;
        blocks = tt;
        cut = sym (
            drop-all c (drop offset text)
              (omega (arith, whole, length-take c (drop offset text), length-drop offset text)));
      });
    }

    Moves-more :
        ltb (offset + length piece) v.file_size ≡ true
        → Moves
            (migrate_loop mods m k e
              (offset + length piece)
              (suc i)
              (some tmp1)
              (round f g i offset))
            (suc i)
            (drop c (drop offset text))
            tmp1
        → Moves start i (drop offset text) tmp
    Moves-more again r = record {
      plain = r.plain;
      generator = r.generator;
      moved = r.moved;
      chunks = here ∷ r.chunks;
      done = migrate_loop-round ∙ rw again r.done;
      plain_unpaged = r.plain_unpaged;
      plain_kept = r.plain_kept;
      unpaged = r.unpaged;
      body =
          r.body
          ∙ ap (λ s. s ++ flat raw_of r.chunks) tmp1-body
          ∙ append_assoc (body_of tmp) raw (flat raw_of r.chunks);
      is_cut = Cut-first mods e c i (drop offset text) raw r.chunks chunk r.is_cut;
    }

  pub migrate_loop-Moves :
      (n k i offset : ℕ) (f : File S) (g : R) (tmp : File S)
      → f.f_size ≡ 0
      → contents f.disk ≡ text
      → tmp.f_size ≡ 0
      → length (body_of tmp) ≡ i * size
      → offset ≡ i * c
      → offset < length text
      → length text ≤ offset + k
      → length text ≤ offset + n * c
      → i + n < 2 ^ 32
      → Moves (migrate_loop mods m k e offset i (some tmp) (with_both f g)) i (drop offset text) tmp
  migrate_loop-Moves n zero i offset f g tmp unpaged same tmp_unpaged behind place more enough few
        small =
      absurd (omega arith)
  migrate_loop-Moves zero (suc k) i offset f g tmp unpaged same tmp_unpaged behind place more enough
        few small =
      let none_left : 0 * c ≡ 0 = grind arith in absurd (omega arith)
  migrate_loop-Moves (suc n) (suc k) i offset f g tmp unpaged same tmp_unpaged behind place more
        enough few small =
      let rest = drop offset text in
      let piece = piece_at offset in
      let (raw, made, chunk) =
        cipher.encrypts i piece g (omega arith)
          (omega (arith, length-take c rest, length-drop offset text)) in
      let next : suc i < 2 ^ 32 = omega arith in
      elim (Bool-cases (ltb (offset + length piece) v.file_size)) [
        | inl again ↦
            let full : length piece ≡ c =
              ground (arith, size_eq, length-take c rest, length-drop offset text) in
            let count : suc i * c ≡ i * c + c = grind arith in
            let size_count : suc i * size ≡ i * size + size = grind arith in
            let few_count : suc n * c ≡ n * c + c = grind arith in
            let after : drop (offset + length piece) text ≡ drop c rest =
              ap (λ l. drop (offset + l) text) full ∙ sym (drop-drop c offset text) in
            let body =
              tmp1-body k i offset f g tmp raw unpaged same tmp_unpaged behind made chunk next in
            Moves-more k i offset f g tmp raw unpaged same tmp_unpaged behind made chunk next again
              (rw after at (
                migrate_loop-Moves n k (suc i) (offset + length piece)
                  (after_read m contents stores f c offset) (mods.encrypt_chunk e i piece g).1
                  (extended tmp raw i) unpaged (stores.keeps f.disk c offset ∙ same) tmp_unpaged
                  (ap length body
                    ∙ omega (
                      arith,
                      length-append (body_of tmp) raw,
                      chunk.header,
                      full,
                      size_count,
                      behind,
                    ))
                  (omega (arith, full, place, count)) (ground (arith, size_eq))
                  (omega (arith, full)) (omega (arith, full, few_count, few)) (omega arith)))
        | inr last ↦
            Moves-last k i offset f g tmp raw unpaged same tmp_unpaged behind made chunk next last
              (ground (arith, size_eq))
      ]
