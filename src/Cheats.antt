-- ===== src/Cheats.antt =====
-- The lists of the cheat engine: `SetupCheats` of ee_core/src/cheat_api.c.
pub mod Counts
pub mod Lines
pub mod Parser
pub mod Rounds
pub mod Digits
pub mod Accepted
pub mod Screened
pub mod Comments
pub mod Printed
pub mod Selection
pub mod Handover
mod Tests
use opl_future_beta.Base.{
  ℕ, zero, suc, ◌+◌, ◌*◌, ◌/◌, ◌%◌, ◌^◌, Bool, true, false, ◌&&◌, List, [], ◌∷◌, ◌==◌,
  if◌then◌else◌,
}

-- `code_t`: two words of 32 bits.
pub record Code : Type 0 where
  pub addr : ℕ
  pub val : ℕ

-- `hooklist` and `codelist`, in the order in which they are filled, without a bound on either.
pub record CheatLists : Type 0 where
  pub hooks : List Code
  pub codes : List Code

-- `MAX_HOOKS`, `MAX_CODES`, and the pairs of words in `MAX_CHEATLIST`.
abbrev pub max_hooks : ℕ
max_hooks = 5

abbrev pub max_codes : ℕ
max_codes = 250

abbrev pub max_cheatlist_pairs : ℕ
max_cheatlist_pairs = 255

-- `(code.addr & 0xfe000000) == 0x90000000`: the upper 7 of 32 bits.
unfoldable pub is_hook : Code → Bool
is_hook c = c.addr / 2 ^ 25 == 72

-- `(code.addr & 0xf0000000)` is `0x40000000` or `0x30000000`: the code has a second line.
unfoldable pub has_operand : Code → Bool
has_operand c = if c.addr / 2 ^ 28 == 4 then true else c.addr / 2 ^ 28 == 3

abbrev pub is_end : Code → Bool
is_end c = c.addr == 0 && c.val == 0

-- `code.addr & 0x01FFFFFC`
unfoldable pub hook_of : Code → Code
hook_of c = record { addr = c.addr % 2 ^ 25 / 4 * 4; val = c.val }

-- The loop of `SetupCheats`, on the pairs of `gCheatList` that are left and `nextCodeCanBeHook`. `room`
-- is the number of pairs before `i` reaches `MAX_CHEATLIST`.
unfoldable pub setup_loop : (room : ℕ) → List Code → (can_be_hook : Bool) → CheatLists
unfolding is_hook has_operand hook_of
setup_loop zero cs can_be_hook = record { hooks = []; codes = [] }
setup_loop (suc room) [] can_be_hook = record { hooks = []; codes = [] }
setup_loop (suc room) (c ∷ cs) can_be_hook =
    let rest = setup_loop room cs (if has_operand c then false else true) in
    if is_end c
    then record { hooks = []; codes = [] }
    else if is_hook c && can_be_hook
    then record { hooks = hook_of c ∷ rest.hooks; codes = rest.codes }
    else record { hooks = rest.hooks; codes = c ∷ rest.codes }

-- `SetupCheats`
unfoldable pub setup_cheats : List Code → CheatLists
unfolding setup_loop
setup_cheats cs = setup_loop max_cheatlist_pairs cs true
