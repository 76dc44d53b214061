-- ===== src/Cheats/Tests.antt =====
-- The theorems on `SetupCheats` and on cheat files at concrete lists and texts.
use opl_future_beta.Base.{
  true, ◌++◌, leb, Each, take, if◌then◌else◌, min, ◌+◌, ◌≡◌, refl, List, [], ◌∷◌, length, arith,
}
use opl_future_beta.Cheats.{Code, is_hook, has_operand, hook_of, setup_loop, setup_cheats}
use opl_future_beta.Text.{unlines, Str, strchr, from_hex, to_hex}
use opl_future_beta.Cheats.Lines.{
  is_xdigit, is_space, is_graph, copy_digits, cheat_code_from, is_cheat_code, term_str,
  is_empty_str, skip_space, cut_space, trim_str,
}
use opl_future_beta.Cheats.Parser.{Cheat, Parse, parsed, overrun, parse_buf}
use opl_future_beta.Cheats.Rounds.{Ends, parse_buf-Ends}
use opl_future_beta.Cheats.Digits.{IsWords, code_line}
use opl_future_beta.Cheats.Screened.{IsName}
use opl_future_beta.Cheats.Printed.{
  IsCheat, cheat_lines, between, push_all, last_count, parse_buf-cheat_lines,
}
use opl_future_beta.Cheats.Selection.{set_cheats_list, wanted}
use opl_future_beta.Cheats.Handover.{loaded, set_cheats_list-setup, parse_buf-setup}

-- A hook at 0x100008, a code, a code with an operand, and the terminator.
abbrev hook : Code
hook = record { addr = 0x90100008; val = 7 }

abbrev some_codes : List Code
some_codes =
    hook
    ∷ record { addr = 0x20100000; val = 1 }
    ∷ record { addr = 0x40100000; val = 2 }
    ∷ hook
    ∷ record { addr = 0; val = 0 }
    ∷ hook
    ∷ []

some_codes_test : setup_cheats some_codes ≡ record {
  hooks = record { addr = 0x100008; val = 7 } ∷ [];
  codes = record { addr = 0x20100000; val = 1 } ∷ record { addr = 0x40100000; val = 2 } ∷ hook ∷ [];
}
unfolding setup_cheats setup_loop is_hook has_operand hook_of
some_codes_test = refl

-- `Jump` and `Run`
abbrev jump : Str
jump = 74 ∷ 117 ∷ 109 ∷ 112 ∷ []

abbrev running : Str
running = 82 ∷ 117 ∷ 110 ∷ []

abbrev two_cheats : List Cheat
two_cheats =
    record {
      name = jump;
      codes = hook ∷ record { addr = 0x20100000; val = 1 } ∷ [];
      enabled = true;
    }
    ∷ record {
      name = running;
      codes = record { addr = 0x10B8DAFA; val = 0x3F00 } ∷ [];
      enabled = true;
    }
    ∷ []

-- For the tests: the functions on a line.
line_code : Unit {0}
unfolding strchr is_empty_str is_graph term_str trim_str skip_space cut_space is_space is_cheat_code
    cheat_code_from is_xdigit from_hex copy_digits to_hex
line_code = tt

jump-IsName : IsName jump
unfolding line_code
jump-IsName = record {
  one_line = refl;
  short = omega arith;
  visible = refl;
  no_comment = refl;
  trimmed = refl;
  no_code = refl;
}

running-IsName : IsName running
unfolding line_code
running-IsName = record {
  one_line = refl;
  short = omega arith;
  visible = refl;
  no_comment = refl;
  trimmed = refl;
  no_code = refl;
}

hook-IsWords : IsWords hook
hook-IsWords = record { addr_word = omega arith; val_word = omega arith }

two_cheats-IsCheat : Each IsCheat two_cheats
two_cheats-IsCheat = (
  record {
    named = jump-IsName;
    some_code = omega arith;
    fitting = omega arith;
    valid = (
      record { words = hook-IsWords; no_end = refl },
      (
        record {
          words = record { addr_word = omega arith; val_word = omega arith };
          no_end = refl;
        },
        tt,
      ),
    );
    on = refl;
  },
  (
    record {
      named = running-IsName;
      some_code = omega arith;
      fitting = omega arith;
      valid = (
        record {
          words = record { addr_word = omega arith; val_word = omega arith };
          no_end = refl;
        },
        tt,
      );
      on = refl;
    },
    tt,
  ),
)

parse_buf-Ends_example : Ends (jump ++ 10 ∷ running) (parse_buf (jump ++ 10 ∷ running))
parse_buf-Ends_example = parse_buf-Ends (jump ++ 10 ∷ running)

hook_test : is_cheat_code (code_line hook) ≡ true
unfolding line_code
hook_test = refl

parse_buf-cheat_lines_example : parse_buf (unlines (cheat_lines two_cheats)) ≡ (
    if leb 2 250
    then parsed (between (push_all two_cheats []) (last_count 0 two_cheats))
    else overrun)
parse_buf-cheat_lines_example = parse_buf-cheat_lines two_cheats two_cheats-IsCheat

set_cheats_list-setup_example :
    (setup_cheats (set_cheats_list two_cheats) ≡ setup_cheats (take 254 (wanted two_cheats)))
    × (length ((setup_cheats (set_cheats_list two_cheats)).hooks)
          + length ((setup_cheats (set_cheats_list two_cheats)).codes)
        ≡ min 254 (length (wanted two_cheats)))
set_cheats_list-setup_example = set_cheats_list-setup two_cheats

parse_buf-setup_example :
    setup_cheats (set_cheats_list (loaded (parse_buf (unlines (cheat_lines two_cheats)))))
    ≡ setup_cheats (take 254 (wanted two_cheats))
parse_buf-setup_example = parse_buf-setup two_cheats two_cheats-IsCheat (omega arith)

-- Behind a name, the line `  // x`.
abbrev named : Parse
named = record { cheats = []; temp_name = jump; code_index = 0 }
