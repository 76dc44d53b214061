-- ===== src/DiscFiles/Reading.antt =====
-- What `cdrom_read` of modules/iopcore/cdvdman/ioops.c reads, in its three phases.
use opl_future_beta.Base.{
  ℕ, ◌+◌, ◌-◌, ◌*◌, ◌/◌, ◌%◌, ◌^◌, ◌≤◌, ◌<◌, ◌≡◌, ◌∙◌, ap, ap₂, sym, subst, ◌&&◌, List, [], ◌++◌,
  ltb, ◌==◌, if-elim, ◌⊎◌, inl, inr, min, arith,
}
use opl_future_beta.DiscFiles.Handles.{
  Fhandle, Sectors, copy_slice, cd_read, ReadState, take_bytes, align, read_middle, read_rest,
  limit_size, all_phases, at_position, read_out, read_size, cdrom_read,
}
use opl_future_beta.DiscFiles.Bytes.{
  file_bytes, file_bytes-add, copy_slice-at, sectors-at, no_bytes, no_sectors, no_slice,
}

module _ (disc : Sectors) (lsn p n : ℕ) (small : p + n < 2 ^ 32) where
  -- Some of the bytes from `p` on are read, and the rest of the `n` bytes is left.
  abbrev IsAt : ReadState → Type 0
  IsAt r =
      (r.position ≡ p + r.rpos) × (r.rpos + r.size ≡ n) × (r.out ≡ file_bytes disc lsn (r.rpos) p)

  take_bytes-IsAt :
      (k : ℕ) (bytes : List ℕ) (r : ReadState)
      → IsAt r
      → k ≤ r.size
      → bytes ≡ file_bytes disc lsn k (r.position)
      → IsAt (take_bytes k bytes r)
  take_bytes-IsAt k bytes r (a, b, c) h e = (
    omega (arith, a, b, h, small),
    omega (arith, b, h),
    ap₂ ◌++◌ c (e ∙ ap (file_bytes disc lsn k) a) ∙ file_bytes-add disc lsn (r.rpos) k p,
  )

  -- What is left starts at a sector, or nothing is left.
  abbrev IsAligned : ReadState → Type 0
  IsAligned r = (r.position % 2048 ≡ 0) ⊎ (r.size ≡ 0)

  align-IsAt : (r : ReadState) → IsAt r → IsAt (align disc lsn r) × IsAligned (align disc lsn r)
  align-IsAt r h =
      if-elim (λ (x : ReadState). IsAt x × IsAligned x) (r.position % 2048 == 0)
        (λ t. (h, inl (ground (arith, t))))
        (λ t.
          if-elim
            (λ (k : ℕ).
              let x =
                take_bytes k (copy_slice (disc (lsn + r.position / 2048)) (r.position % 2048) k)
                  r in
              IsAt x × IsAligned x)
            (ltb (r.size) (2048 - r.position % 2048))
            (λ w. (phase_one (r.size) h (omega arith) (ground (arith, w)), inr (omega arith)))
            (λ w.
              let k : 2048 - r.position % 2048 ≤ r.size = ground (arith, w) in
              (
                phase_one (2048 - r.position % 2048) h k (omega arith),
                inl (omega (arith, h.0, h.1, k, small)),
              )))
    where
      phase_one :
          (k : ℕ)
          → IsAt r
          → k ≤ r.size
          → r.position % 2048 + k ≤ 2048
          → IsAt
              (take_bytes k (copy_slice (disc (lsn + r.position / 2048)) (r.position % 2048) k) r)
      phase_one k i a b =
          take_bytes-IsAt k (copy_slice (disc (lsn + r.position / 2048)) (r.position % 2048) k) r i
            a (copy_slice-at disc lsn k (r.position) b)

  middle-IsAt :
      (r : ReadState)
      → IsAt r
      → IsAligned r
      → IsAt (read_middle disc lsn r)
        × IsAligned (read_middle disc lsn r)
        × ((read_middle disc lsn r).size < 2048)
  middle-IsAt r h (inl a) = (
    take_bytes-IsAt (r.size / 2048 * 2048) (cd_read disc (r.size / 2048) (lsn + r.position / 2048))
        r h (omega arith) (sectors-at disc lsn (r.size / 2048) (r.position) a),
    inl (omega (arith, a, h.0, h.1, small)),
    omega arith,
  )
  middle-IsAt r h (inr a) =
      let z : 0 ≡ r.size / 2048 = omega (arith, a) in
      (
        take_bytes-IsAt (r.size / 2048 * 2048)
            (cd_read disc (r.size / 2048) (lsn + r.position / 2048)) r h (omega arith)
            (subst
              (λ k.
                cd_read disc k (lsn + r.position / 2048)
                ≡ file_bytes disc lsn (k * 2048) (r.position))
              z (no_sectors disc lsn (lsn + r.position / 2048) ∙ no_bytes disc lsn (r.position))),
        inr (omega (arith, a)),
        omega arith,
      )

  rest-IsAt :
      (r : ReadState)
      → IsAt r
      → IsAligned r
      → r.size < 2048
      → IsAt (read_rest disc lsn r) × ((read_rest disc lsn r).size ≡ 0)
  rest-IsAt r h a l = (
    take_bytes-IsAt (r.size) (copy_slice (disc (lsn + r.position / 2048)) 0 (r.size)) r h
        (omega arith) (at_start a),
    omega arith,
  )
    where
      at_start :
          IsAligned r
          → copy_slice (disc (lsn + r.position / 2048)) 0 (r.size)
            ≡ file_bytes disc lsn (r.size) (r.position)
      at_start (inl b) =
          ap (λ i. copy_slice (disc (lsn + r.position / 2048)) i (r.size)) (sym b)
          ∙ copy_slice-at disc lsn (r.size) (r.position) (omega (arith, b, l))
      at_start (inr b) =
          subst
            (λ k.
              copy_slice (disc (lsn + r.position / 2048)) 0 k ≡ file_bytes disc lsn k (r.position))
            (sym b)
            (no_slice disc lsn (disc (lsn + r.position / 2048)) 0 ∙ no_bytes disc lsn (r.position))

  all-IsAt : (r : ReadState) → IsAt r → let x = all_phases disc lsn r in IsAt x × (x.size ≡ 0)
  all-IsAt r h =
      let f = align-IsAt r h in
      let m = middle-IsAt (align disc lsn r) (f.0) (f.1) in
      rest-IsAt (read_middle disc lsn (align disc lsn r)) (m.0) (m.1) (m.2)

-- An open file: its position is not behind its end, and its size is that of a non-negative int.
abbrev pub IsOpen : Fhandle → Type 0
IsOpen fh = (fh.position ≤ fh.filesize) × (fh.filesize < 2 ^ 31)

limit_size-min :
    (fh : Fhandle) (size : ℕ)
    → IsOpen fh
    → size < 2 ^ 31
    → limit_size fh size ≡ min size (fh.filesize - fh.position)
limit_size-min fh size (a, b) h =
    if-elim (λ (k : ℕ). k ≡ min size (fh.filesize - fh.position))
      (ltb (fh.filesize) ((fh.position + size) % 2 ^ 32)) (λ t. ground (arith, t, a, b, h))
      (λ t. ground (arith, t, a, b, h))

-- The result of a read of some bytes.
abbrev pub read_result : Sectors → Fhandle → ℕ → ℕ × List ℕ × Fhandle
read_result disc fh n =
    (n, file_bytes disc (fh.lsn) n (fh.position), record fh { position = fh.position + n })

read_size-result :
    (disc : Sectors) (fh : Fhandle) (n : ℕ)
    → fh.position + n < 2 ^ 32
    → n < 2 ^ 31
    → read_size disc fh n ≡ read_result disc fh n
read_size-result disc fh n h l =
    if-elim (λ (x : ℕ × List ℕ × Fhandle). x ≡ read_result disc fh n) (ltb 0 n && ltb n (2 ^ 31))
      (λ t. some_read (all_phases disc (fh.lsn) (at_position fh n)) (
        all-IsAt disc (fh.lsn) (fh.position) n h (at_position fh n)
          (omega arith, omega arith, no_bytes disc (fh.lsn) (fh.position))))
      (λ t. let z : 0 ≡ n = ground (arith, t, l) in none_read ∙ ap (read_result disc fh) z)
  where
    none_read : (0, [], fh) ≡ read_result disc fh 0
    none_read =
        let e : fh.position ≡ fh.position + 0 = omega arith in
        ap₂ (λ o q. (0, o, record fh { position = q })) (no_bytes disc (fh.lsn) (fh.position)) e

    some_read :
        (r : ReadState)
        → IsAt disc (fh.lsn) (fh.position) n h r × (r.size ≡ 0)
        → read_out fh r ≡ read_result disc fh n
    some_read r ((a, b, c), d) =
        let e : r.rpos ≡ n = omega (arith, b, d) in
        ap₂ (λ o q. (r.rpos, o, record fh { position = q })) c a ∙ ap (read_result disc fh) e

-- A read of an open file gives the bytes of the disc from the position on, as many as are asked for and are left, and
-- moves the position behind them, however the range lies with respect to the sectors.
pub cdrom_read-bytes :
    (disc : Sectors) (fh : Fhandle) (size : ℕ)
    → IsOpen fh
    → size < 2 ^ 31
    → let n = min size (fh.filesize - fh.position) in
      cdrom_read disc fh size
      ≡ (n, file_bytes disc (fh.lsn) n (fh.position), record fh { position = fh.position + n })
unfolding cdrom_read
cdrom_read-bytes disc fh size (a, b) h =
    ap (read_size disc fh) (limit_size-min fh size (a, b) h)
    ∙ read_size-result disc fh (min size (fh.filesize - fh.position)) (omega (arith, a, b, h))
        (omega (arith, h))
