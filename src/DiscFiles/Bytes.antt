-- ===== src/DiscFiles/Bytes.antt =====
-- The bytes of a file on a disc, one by one, and what modules/iopcore/cdvdman/ioops.c copies of them.
use opl_future_beta.Base.{
  ℕ, zero, suc, ◌+◌, ◌*◌, ◌/◌, ◌%◌, ◌≤◌, ◌≡◌, ◌∙◌, ap, ap₂, refl, List, [], ◌∷◌, ◌++◌, length,
  arith,
}
use opl_future_beta.DiscSearch.Toc.{Memory}
use opl_future_beta.DiscFiles.Handles.{Sectors, copy_slice, cd_read}

-- The bytes from a position of a file on that starts at a sector.
unfoldable pub file_bytes : Sectors → (lsn n pos : ℕ) → List ℕ
file_bytes disc lsn zero pos = []
file_bytes disc lsn (suc n) pos =
    disc (lsn + pos / 2048) (pos % 2048) ∷ file_bytes disc lsn n (pos + 1)

module _ (disc : Sectors) (lsn : ℕ) where
  pub file_bytes-add :
      (n m pos : ℕ)
      → file_bytes disc lsn n pos ++ file_bytes disc lsn m (pos + n)
        ≡ file_bytes disc lsn (n + m) pos
  unfolding file_bytes
  file_bytes-add zero m pos =
      let e : pos + 0 ≡ pos = omega arith in
      let d : m ≡ 0 + m = omega arith in ap₂ (λ k p. file_bytes disc lsn k p) d e
  file_bytes-add (suc n) m pos =
      let e : pos + suc n ≡ pos + 1 + n = omega arith in
      let d : suc (n + m) ≡ suc n + m = omega arith in
      ap (λ xs. disc (lsn + pos / 2048) (pos % 2048) ∷ xs)
        (ap (λ p. file_bytes disc lsn n (pos + 1) ++ file_bytes disc lsn m p) e
          ∙ file_bytes-add n m (pos + 1))
      ∙ ap (λ k. file_bytes disc lsn k pos) d

  pub length-file_bytes : (n pos : ℕ) → length (file_bytes disc lsn n pos) ≡ n
  unfolding file_bytes
  length-file_bytes zero pos = refl
  length-file_bytes (suc n) pos = ap suc (length-file_bytes n (pos + 1))

  -- Bytes of one sector.
  copy_slice-file_bytes :
      (n q i : ℕ)
      → i + n ≤ 2048
      → copy_slice (disc (lsn + q)) i n ≡ file_bytes disc lsn n (2048 * q + i)
  unfolding copy_slice file_bytes
  copy_slice-file_bytes zero q i h = refl
  copy_slice-file_bytes (suc n) q i h =
      let a : q ≡ (2048 * q + i) / 2048 = omega (arith, h) in
      let b : i ≡ (2048 * q + i) % 2048 = omega (arith, h) in
      let c : 2048 * q + (i + 1) ≡ 2048 * q + i + 1 = omega arith in
      ap₂ (λ x xs. x ∷ xs) (ap₂ (λ k j. disc (lsn + k) j) a b)
        (copy_slice-file_bytes n q (i + 1) (omega (arith, h)) ∙ ap (file_bytes disc lsn n) c)

  pub copy_slice-at :
      (n pos : ℕ)
      → pos % 2048 + n ≤ 2048
      → copy_slice (disc (lsn + pos / 2048)) (pos % 2048) n ≡ file_bytes disc lsn n pos
  copy_slice-at n pos h =
      let e : 2048 * (pos / 2048) + pos % 2048 ≡ pos = omega arith in
      copy_slice-file_bytes n (pos / 2048) (pos % 2048) h ∙ ap (file_bytes disc lsn n) e

  pub no_sectors : (q : ℕ) → cd_read disc 0 q ≡ []
  unfolding cd_read
  no_sectors q = refl

  pub no_slice : (mem : Memory) (i : ℕ) → copy_slice mem i 0 ≡ []
  unfolding copy_slice
  no_slice mem i = refl

  pub no_bytes : (pos : ℕ) → [] ≡ file_bytes disc lsn 0 pos
  unfolding file_bytes
  no_bytes pos = refl

  sectors-file_bytes :
      (n q : ℕ) → cd_read disc n (lsn + q) ≡ file_bytes disc lsn (n * 2048) (2048 * q)
  unfolding cd_read
  sectors-file_bytes zero q = no_bytes (2048 * q)
  sectors-file_bytes (suc n) q =
      let a : 2048 * q + 0 ≡ 2048 * q = omega arith in
      let b : lsn + q + 1 ≡ lsn + (q + 1) = omega arith in
      let c : 2048 * (q + 1) ≡ 2048 * q + 2048 = omega arith in
      let d : 2048 + n * 2048 ≡ suc n * 2048 = omega arith in
      ap₂ ◌++◌ (copy_slice-file_bytes 2048 q 0 (omega arith) ∙ ap (file_bytes disc lsn 2048) a) (
        ap (cd_read disc n) b
        ∙ sectors-file_bytes n (q + 1)
        ∙ ap (file_bytes disc lsn (n * 2048)) c)
      ∙ file_bytes-add 2048 (n * 2048) (2048 * q)
      ∙ ap (λ k. file_bytes disc lsn k (2048 * q)) d

  pub sectors-at :
      (n pos : ℕ)
      → pos % 2048 ≡ 0
      → cd_read disc n (lsn + pos / 2048) ≡ file_bytes disc lsn (n * 2048) pos
  sectors-at n pos h =
      let e : 2048 * (pos / 2048) ≡ pos = omega (arith, h) in
      sectors-file_bytes n (pos / 2048) ∙ ap (file_bytes disc lsn (n * 2048)) e
