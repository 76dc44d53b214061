-- ===== src/DiscFiles/Calls.antt =====
-- Reads and seeks on an open file, modules/iopcore/cdvdman/ioops.c, in any order.
use opl_future_beta.Base.{
  ℕ, ◌+◌, ◌-◌, ◌%◌, ◌^◌, ◌≤◌, ◌<◌, ◌≡◌, ◌∙◌, ap, refl, List, [], ◌∷◌, ltb, if◌then◌else◌, min, Each,
  arith,
}
use opl_future_beta.DiscFiles.Handles.{
  Fhandle, Sectors, Whence, seek_set, seek_cur, seek_end, other, seek_to, cdrom_read, cdrom_lseek,
}
use opl_future_beta.DiscFiles.Bytes.{file_bytes}
use opl_future_beta.DiscFiles.Reading.{IsOpen, cdrom_read-bytes}

pub data FileCall : Type 0 where
  reads : (size : ℕ) → FileCall
  seeks : Whence → (offset : ℕ) → FileCall

-- What a call gives: its return value, and the bytes of a read.
abbrev pub do_call : Sectors → Fhandle → FileCall → ℕ × List ℕ × Fhandle
do_call disc fh (reads size) = cdrom_read disc fh size
do_call disc fh (seeks whence offset) =
    ((cdrom_lseek whence offset fh).0, [], (cdrom_lseek whence offset fh).1)

unfoldable pub calls : Sectors → List FileCall → Fhandle → List (ℕ × List ℕ)
calls disc [] fh = []
calls disc (c ∷ cs) fh = let r = do_call disc fh c in (r.0, r.1) ∷ calls disc cs (r.2)

-- A file as its bytes and a position, without sectors.
abbrev pub file_call : (bytes : (n pos : ℕ) → List ℕ) (filesize pos : ℕ) → FileCall → ℕ × List ℕ × ℕ
file_call bytes filesize pos (reads size) =
    let n = min size (filesize - pos) in (n, bytes n pos, pos + n)
file_call bytes filesize pos (seeks seek_set offset) = let q = min offset filesize in (q, [], q)
file_call bytes filesize pos (seeks seek_cur offset) =
    let q = min ((pos + offset) % 2 ^ 32) filesize in (q, [], q)
file_call bytes filesize pos (seeks seek_end offset) =
    let q = min ((filesize + (2 ^ 32 - offset)) % 2 ^ 32) filesize in (q, [], q)
file_call bytes filesize pos (seeks other offset) = (pos, [], pos)

unfoldable pub file_calls :
    (bytes : (n pos : ℕ) → List ℕ) (filesize : ℕ) → List FileCall → (pos : ℕ) → List (ℕ × List ℕ)
file_calls bytes filesize [] pos = []
file_calls bytes filesize (c ∷ cs) pos =
    let r = file_call bytes filesize pos c in (r.0, r.1) ∷ file_calls bytes filesize cs (r.2)

abbrev pub IsCall : FileCall → Type 0
IsCall (reads size) = size < 2 ^ 31
IsCall (seeks whence offset) = Unit

lseek-min :
    (whence : Whence) (offset : ℕ) (fh : Fhandle)
    → let q = min (seek_to whence offset fh) (fh.filesize) in
      cdrom_lseek whence offset fh ≡ (q, record fh { position = q })
unfolding cdrom_lseek
lseek-min whence offset fh =
    let e : (if ltb (fh.filesize) (seek_to whence offset fh)
          then fh.filesize
          else seek_to whence offset fh)
        ≡ min (seek_to whence offset fh) (fh.filesize) =
      clamped (fh.filesize) (seek_to whence offset fh) in
    ap (λ q. (q, record fh { position = q })) e
  where
    clamped : (size p : ℕ) → (if ltb size p then size else p) ≡ min p size
    clamped size p = ground arith

-- What a call on the handle of a file gives, by the bytes of the file.
abbrev with_handle : Fhandle → ℕ × List ℕ × ℕ → ℕ × List ℕ × Fhandle
with_handle fh r = (r.0, r.1, record fh { position = r.2 })

do_call-file_call :
    (disc : Sectors) (fh : Fhandle) (c : FileCall)
    → IsOpen fh
    → IsCall c
    → do_call disc fh c
      ≡ with_handle fh (file_call (file_bytes disc (fh.lsn)) (fh.filesize) (fh.position) c)
do_call-file_call disc fh (reads size) h i = cdrom_read-bytes disc fh size h i
do_call-file_call disc fh (seeks seek_set offset) h i =
    ap (λ r. (r.0, [], r.1)) (lseek-min seek_set offset fh)
do_call-file_call disc fh (seeks seek_cur offset) h i =
    ap (λ r. (r.0, [], r.1)) (lseek-min seek_cur offset fh)
do_call-file_call disc fh (seeks seek_end offset) h i =
    ap (λ r. (r.0, [], r.1)) (lseek-min seek_end offset fh)
do_call-file_call disc fh (seeks other offset) h i =
    let e : min (fh.position) (fh.filesize) ≡ fh.position = omega (arith, h.0) in
    ap (λ r. (r.0, [], r.1)) (lseek-min other offset fh)
    ∙ ap (λ q. (q, [], record fh { position = q })) e

file_call-le :
    (bytes : (n pos : ℕ) → List ℕ) (filesize pos : ℕ) (c : FileCall)
    → pos ≤ filesize
    → (file_call bytes filesize pos c).2 ≤ filesize
file_call-le bytes filesize pos (reads size) h = omega (arith, h)
file_call-le bytes filesize pos (seeks seek_set offset) h = omega arith
file_call-le bytes filesize pos (seeks seek_cur offset) h = omega arith
file_call-le bytes filesize pos (seeks seek_end offset) h = omega arith
file_call-le bytes filesize pos (seeks other offset) h = h

-- On an open file whose size is below 2^31 and whose position is not behind its end, any sequence of reads of
-- non-negative sizes and of seeks of any kind gives what it gives on the plain bytes of the file, where a read
-- stops at the end of the file and a seek behind the end goes to the end.
pub calls-file_calls :
    (disc : Sectors) (cs : List FileCall) (fh : Fhandle)
    → IsOpen fh
    → Each IsCall cs
    → calls disc cs fh ≡ file_calls (file_bytes disc (fh.lsn)) (fh.filesize) cs (fh.position)
unfolding calls file_calls
calls-file_calls disc [] fh h i = refl
calls-file_calls disc (c ∷ cs) fh (a, b) (i, is) =
    let r : ℕ × List ℕ × ℕ = file_call (file_bytes disc (fh.lsn)) (fh.filesize) (fh.position) c in
    ap (λ x. (x.0, x.1) ∷ calls disc cs (x.2)) (do_call-file_call disc fh c (a, b) i)
    ∙ ap (λ xs. (r.0, r.1) ∷ xs)
        (calls-file_calls disc cs (record fh { position = r.2 })
          (file_call-le (file_bytes disc (fh.lsn)) (fh.filesize) (fh.position) c a, b) is)
