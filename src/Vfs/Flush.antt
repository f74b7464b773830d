-- ===== src/Vfs/Flush.antt =====
-- The outcomes of a write and of a flush of src/vfs/vfs.c.
use bctoolbox.Common.{ℕ, ◌<◌, ◌≡◌, refl, inl, inr, arith, ◌==◌, if◌then◌else◌, take, Bool-cases}
use bctoolbox.Common.Int.{ℤ, pos, negsuc, is_neg, ◌==ℤ◌}
use bctoolbox.Vfs.{
  Bytes, File, Methods, error, pure, ◌>>◌, set_g_size, set_f_size, write_flushed, flush,
}

module _ {S : Type 0} where
  -- A write fails, which only the state below can tell, or succeeds, which drops the lines held.
  pub data Wrote (f : File S) : ℤ × File S → Type 0 where
    refused : {d : S} → Wrote f (error, record f { disk = d })
    wrote : {d : S} {n : ℕ} → Wrote f (pos n, record f { disk = d; g_size = 0 })

  status :
      (f : File S) (ret : ℤ) (d : S)
      → Wrote f (
          (if ret ==ℤ error
              then pure error
              else if is_neg ret
              then pure error
              else (do set_g_size 0; pure ret))
            (record f { disk = d }))
  status f (pos n) d = wrote
  status f (negsuc k) d = elim (Bool-cases (k == 254)) [
    | inl same ↦ rw same refused
    | inr other ↦ rw other refused
  ]

  module _ (m : Methods S) where
    -- What the VFS does with the page at its place.
    abbrev pub page_written : File S → ℤ × S
    page_written f = m.write_at f.disk (take f.f_size f.f_page) f.f_page_offset

    -- A flush has nothing to do, or fails with the write of the page and keeps it, or writes the page
    -- and empties it.
    pub data Flushed (f : File S) : ℤ × File S → Type 0 where
      unchanged : f.f_size ≡ 0 → Flushed f (pos 0, f)
      failed :
          {k : ℕ} {d : S}
          → 0 < f.f_size
          → page_written f ≡ (negsuc k, d)
          → Flushed f (error, record f { disk = d })
      written :
          {n : ℕ} {d : S}
          → 0 < f.f_size
          → page_written f ≡ (pos n, d)
          → Flushed f (pos n, record f { disk = d; f_size = 0; g_size = 0 })

    by_status :
        (f : File S) (ret : ℤ) (d : S)
        → 0 < f.f_size
        → page_written f ≡ (ret, d)
        → let w : ℤ × File S =
            (if ret ==ℤ error
                then pure error
                else if is_neg ret
                then pure error
                else (do set_g_size 0; pure ret))
              (record f { disk = d; f_size = 0 }) in
          Flushed f ((if is_neg w.0 then (do set_f_size f.f_size; pure w.0) else pure w.0) w.1)
    by_status f (pos n) d full done = written full done
    by_status f (negsuc k) d full done = elim (Bool-cases (k == 254)) [
      | inl same ↦ rw same (failed full done)
      | inr other ↦ rw other (failed full done)
    ]

    pub write_flushed-Wrote : (buf : Bytes) (o : ℤ) (f : File S) → Wrote f (write_flushed m buf o f)
    unfolding write_flushed
    write_flushed-Wrote buf o f = status f (m.write_at f.disk buf o).0 (m.write_at f.disk buf o).1

    -- `bctbx_file_flush` returns 0 and changes nothing where the page is empty; otherwise it gives the
    -- VFS the bytes of the page at its offset, and fails with that write and keeps the page with its
    -- size, or returns what the write returned and empties the page.
    pub flush-Flushed : (f : File S) → Flushed f (flush m f)
    unfolding flush write_flushed
    flush-Flushed f = elim (Bool-cases (f.f_size == 0)) [
      | inl empty ↦ rw empty (unchanged (ground arith))
      | inr full ↦ rw full (by_status f (page_written f).0 (page_written f).1 (ground arith) refl)
    ]
