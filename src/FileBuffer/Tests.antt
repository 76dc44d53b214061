-- ===== src/FileBuffer/Tests.antt =====
-- Runs of the file buffers of src/util.c, and the theorems at concrete inputs.
use opl_future_beta.Base.{◌≡◌, refl, List, [], ◌∷◌, ◌++◌, some}
use opl_future_beta.Text.{Str, unlines, strchr}
use opl_future_beta.FileBuffer.{
  open_writer, returned, moved_null, write_all, open_memory, read_all, read_file_buffer, scan_line,
  find_line, refill, use_line,
}
use opl_future_beta.FileBuffer.Writing.{closed, concat, write_all-closed}
use opl_future_beta.FileBuffer.Rounds.{shown}

-- Writes of three, four and nine bytes through a buffer of six.
abbrev writes : List Str
writes =
    (97 ∷ 98 ∷ 99 ∷ [])
    ∷ (100 ∷ 101 ∷ 102 ∷ 103 ∷ [])
    ∷ (104 ∷ 105 ∷ 106 ∷ 107 ∷ 108 ∷ 109 ∷ 110 ∷ 111 ∷ 112 ∷ [])
    ∷ (113 ∷ [])
    ∷ []

abbrev six : Str
six = 46 ∷ 46 ∷ 46 ∷ 46 ∷ 46 ∷ 46 ∷ []

write_all-closed_example : closed (write_all writes (open_writer six)) ≡ some (concat writes)
write_all-closed_example = write_all-closed six writes

abbrev five : Str
five = 102 ∷ 105 ∷ 118 ∷ 101 ∷ []

abbrev lines : List Str
lines =
    (111 ∷ 110 ∷ 101 ∷ 13 ∷ [])
    ∷ (35 ∷ 116 ∷ 119 ∷ 111 ∷ [])
    ∷ []
    ∷ (102 ∷ 111 ∷ 117 ∷ 114 ∷ [])
    ∷ []

abbrev file : Str
file = 239 ∷ 187 ∷ 191 ∷ (unlines lines ++ five)

-- The comment, the line break with a CR and the last line.
shown_code :
    shown lines five
    ≡ returned ((111 ∷ 110 ∷ 101 ∷ []) ∷ [] ∷ (102 ∷ 111 ∷ 117 ∷ 114 ∷ []) ∷ five ∷ [])
shown_code = refl

-- Three lines of a memory, the last one a comment without a line feed.
null_move_code : read_all 9 (open_memory (97 ∷ 10 ∷ 35 ∷ 98 ∷ [])) ≡ moved_null
unfolding read_all read_file_buffer scan_line find_line refill use_line open_memory strchr
null_move_code = refl
