-- ===== src/Stream/Control.antt =====
-- The calls of modules/iopcore/cdvdman/streaming.c that the game makes: `sceCdStInit` to
-- `sceCdStRead`, and what happens to the drive between them.
use opl_future_beta.Base.{
  ℕ, ◌-◌, ◌*◌, ◌/◌, Bool, true, false, List, [], ◌∷◌, ◌++◌, Option, none, some, length,
  if◌then◌else◌, ◌==◌,
}
use opl_future_beta.Stream.State.{u16, u32, Stream, Drive, err_no, stat_pause}
use opl_future_beta.Stream.Fill.{set_reading, start_fill_from_game, cdread_thread, Wake, wakes}
use opl_future_beta.Stream.Reader.{read_sectors, read_sectors_ee}

unfoldable pub st_reset : Stream → Stream
st_reset s = record s { write_ptr = 0; read_ptr = 0; streamed = 0; is_reading = false }

-- `memory` is what lies at `iop_bufaddr`. The division is the source's: `bankmax` is not 0.
unfoldable pub sce_cd_st_init : ℕ → ℕ → List ℕ → Drive → Drive
sce_cd_st_init bufmax bankmax memory d = record d {
  err = err_no;
  alarm = false;
  stm = st_reset (record (d.stm) {
    bank_max = u16 bankmax;
    bank_size = u16 (bufmax / bankmax);
    buf_max = u16 (u16 (bufmax / bankmax) * u16 bankmax);
    buf = memory;
  });
}

-- `sceCdSync(0)` waits until the read in progress is over.
unfoldable pub sce_cd_sync : (ℕ → ℕ) → Drive → Drive
sce_cd_sync disc d = cdread_thread disc d

-- `err` and `status` as the control calls set them first.
unfoldable pub pausing : Drive → Drive
pausing d = record d { err = err_no; status = stat_pause }

unfoldable pub sce_cd_st_stop : (ℕ → ℕ) → Drive → Drive
sce_cd_st_stop disc d =
    if d.stm.stat
    then sce_cd_sync disc (record (pausing d) {
      alarm = false;
      callback = false;
      stm = st_reset (record (d.stm) { streamed = 0; stat = false });
    })
    else pausing d

unfoldable pub start_stream : ℕ → Drive → Drive
start_stream lsn d = start_fill_from_game (record (pausing d) {
  callback = true;
  stm = st_reset (record (d.stm) { lsn = u32 lsn; stat = true });
})

unfoldable pub sce_cd_st_start : (ℕ → ℕ) → ℕ → Drive → Drive
sce_cd_st_start disc lsn d = start_stream lsn (sce_cd_st_stop disc d)

unfoldable pub sce_cd_st_stat : Drive → ℕ × Drive
sce_cd_st_stat d = (d.stm.streamed, record d { err = err_no })

unfoldable pub sce_cd_st_pause : (ℕ → ℕ) → Drive → Bool × Drive
sce_cd_st_pause disc d =
    if d.stm.stat
    then (
      true,
      sce_cd_sync disc (set_reading false (record (pausing d) { alarm = false; callback = false })),
    )
    else (false, pausing d)

unfoldable pub sce_cd_st_resume : Drive → Bool × Drive
sce_cd_st_resume d =
    if d.stm.stat
    then (true, start_fill_from_game (record (pausing d) { callback = true }))
    else (false, pausing d)

unfoldable pub sce_cd_st_seek : (ℕ → ℕ) → ℕ → Drive → Bool × Drive
sce_cd_st_seek disc lsn d =
    if d.stm.stat then (true, sce_cd_st_start disc lsn (pausing d)) else (false, pausing d)

-- How one round of `sceCdStRead` copies: by `ReadSectors`, or by `ReadSectorsEE` with what
-- happens while it does.
pub data Copy : Type 0 where
  iop : Copy
  ee : List Wake → List Wake → Copy

unfoldable pub copy_sectors : (ℕ → ℕ) → Copy → ℕ → Drive → List ℕ × Drive
copy_sectors disc iop maxcount d =
    let (out, s) = read_sectors maxcount (d.stm) in (out, record d { stm = s })
copy_sectors disc (ee before after) maxcount d = read_sectors_ee disc before after maxcount d

-- `sceCdStRead` with `mode == 0`: one round, then the buffer is filled further.
unfoldable pub st_read_nonblocking : (ℕ → ℕ) → Copy → ℕ → Drive → List ℕ × Drive
st_read_nonblocking disc c sectors d =
    if d.stm.stat
    then (if sectors == 0
        then ([], start_fill_from_game (record d { err = err_no }))
        else (let (out, d') = copy_sectors disc c sectors (record d { err = err_no }) in
            (out, start_fill_from_game d')))
    else ([], record d { err = err_no })

-- The rounds of `sceCdStRead` with another `mode`: `left` sectors are still wanted. The list holds
-- what happens before each round; `none` means that the call still waits when
-- the list ends.
unfoldable pub read_rounds :
    (ℕ → ℕ) → Copy → List (List Wake) → ℕ → List ℕ → Drive → Option (List ℕ × Drive)
read_rounds disc c [] left out d = if left == 0 then some (out, d) else none
read_rounds disc c (ws ∷ rest_of) left out d =
    let (new, d') = copy_sectors disc c left (wakes disc ws d) in
    let rest = read_rounds disc c rest_of (left - length new) (out ++ new) d' in
    if left == 0 then some (out, d) else rest

unfoldable pub fill_after : Option (List ℕ × Drive) → Option (List ℕ × Drive)
fill_after none = none
fill_after (some (out, d)) = some (out, start_fill_from_game d)

unfoldable pub st_read_blocking :
    (ℕ → ℕ) → Copy → List (List Wake) → ℕ → Drive → Option (List ℕ × Drive)
st_read_blocking disc c schedule sectors d =
    if d.stm.stat
    then fill_after (read_rounds disc c schedule sectors [] (record d { err = err_no }))
    else some ([], record d { err = err_no })
