-- ===== src/Cheats/Selection.antt =====
-- The list that src/cheatman.c hands to the loader: `set_cheats_list`. `gCheatList` is its 255 pairs of words.
use opl_future_beta.Base.{
  ℕ, zero, suc, ◌+◌, ◌-◌, ◌*◌, List, [], ◌∷◌, ◌++◌, ltb, leb, ◌==◌, if◌then◌else◌, length, take,
  replicate,
}
use opl_future_beta.Cheats.{Code, max_cheatlist_pairs}
use opl_future_beta.Cheats.Parser.{Cheat, max_entry_codes}

abbrev pub no_code : Code
no_code = record { addr = 0; val = 0 }

-- The inner loop of `set_cheats_list`, with `left` indices before `MAX_CHEATLIST`: `out` is the pairs stored.
unfoldable pub add_codes : (left : ℕ) → List Code → (out : List Code) → List Code
add_codes zero codes out = out
add_codes (suc left) [] out = out
add_codes (suc left) (c ∷ codes) out =
    let next = add_codes left codes (out ++ c ∷ []) in
    if c.addr == 0 then out else if leb (2 * length out + 2) 510 then next else out

-- The outer loop, on the entries in use.
unfoldable pub add_cheats : List Cheat → (out : List Code) → List Code
unfolding add_codes
add_cheats [] out = out
add_cheats (ch ∷ cs) out =
    add_cheats cs (if ch.enabled then add_codes max_entry_codes (ch.codes) out else out)

-- `set_cheats_list`: what it leaves in `gCheatList`, which it has cleared.
unfoldable pub set_cheats_list : List Cheat → List Code
unfolding add_cheats
set_cheats_list cs =
    let out = add_cheats cs [] in
    if ltb (length out) max_cheatlist_pairs
    then out ++ replicate (max_cheatlist_pairs - length out) no_code
    else take (max_cheatlist_pairs - 1) out ++ no_code ∷ []

-- The codes of an entry up to one without an address.
abbrev pub live : List Code → List Code
live [] = []
live (c ∷ codes) = if c.addr == 0 then [] else c ∷ live codes

-- The codes that the enabled cheats ask for.
abbrev pub wanted : List Cheat → List Code
wanted [] = []
wanted (ch ∷ cs) = (if ch.enabled then live (take max_entry_codes (ch.codes)) else []) ++ wanted cs
