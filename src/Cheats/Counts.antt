-- ===== src/Cheats/Counts.antt =====
-- How many hooks and codes `SetupCheats` of ee_core/src/cheat_api.c stores.
use opl_future_beta.Base.{
  ℕ, zero, suc, ◌+◌, ◌/◌, ◌%◌, ◌^◌, ◌≤◌, ◌<◌, ◌≡◌, refl, Bool, true, false, ◌&&◌, List, [], ◌∷◌,
  length, replicate, Each, arith, if◌then◌else◌,
}
use opl_future_beta.Cheats.{
  Code, CheatLists, max_cheatlist_pairs, is_hook, has_operand, is_end, hook_of, setup_loop,
  setup_cheats,
}

-- The pairs in front of the terminator, or of the end of the array.
abbrev pub used : (room : ℕ) → List Code → ℕ
used zero cs = 0
used (suc room) [] = 0
used (suc room) (c ∷ cs) = let rest = used room cs in if is_end c then 0 else rest + 1

-- Where the engine can hook: an aligned address of the 32 MB.
pub record IsHook (c : Code) : Type 0 where
  pub aligned : c.addr % 4 ≡ 0
  pub in_memory : c.addr < 2 ^ 25

hook_of-IsHook : (c : Code) → IsHook (hook_of c)
unfolding hook_of
hook_of-IsHook c = omega arith

pub record Counted (n room : ℕ) (l : CheatLists) : Type 0 where
  pub total : length (l.hooks) + length (l.codes) ≡ n
  pub bound : n ≤ room
  pub places : Each IsHook (l.hooks)

-- One round, by its two tests.
round-Counted :
    (e k : Bool) (n room : ℕ) (c : Code) (r : CheatLists)
    → Counted n room r
    → Counted (if e then 0 else n + 1) (suc room) (
        if e
        then record { hooks = []; codes = [] }
        else if k
        then record { hooks = hook_of c ∷ r.hooks; codes = r.codes }
        else record { hooks = r.hooks; codes = c ∷ r.codes })
round-Counted true k n room c r h = record { total = refl; bound = omega arith; places = tt }
round-Counted false true n room c r h = record {
  total = omega (arith, h.total);
  bound = omega (arith, h.bound);
  places = (hook_of-IsHook c, h.places);
}
round-Counted false false n room c r h = record {
  total = omega (arith, h.total);
  bound = omega (arith, h.bound);
  places = h.places;
}

setup_loop-Counted :
    (room : ℕ) (cs : List Code) (b : Bool) → Counted (used room cs) room (setup_loop room cs b)
unfolding setup_loop
setup_loop-Counted zero cs b = record { total = refl; bound = omega arith; places = tt }
setup_loop-Counted (suc room) [] b = record { total = refl; bound = omega arith; places = tt }
setup_loop-Counted (suc room) (c ∷ cs) b =
    let h = setup_loop-Counted room cs (if has_operand c then false else true) in
    round-Counted (is_end c) (is_hook c && b) (used room cs) room c _ h

-- The hooks and the codes that `SetupCheats` stores are together as many as the codes in front of the
-- terminator, or of the end of the array, which are at most 255, and every hook is an aligned address
-- below 32 MB.
pub setup_cheats-Counted :
    (cs : List Code) → Counted (used max_cheatlist_pairs cs) max_cheatlist_pairs (setup_cheats cs)
unfolding setup_cheats
setup_cheats-Counted cs = setup_loop-Counted max_cheatlist_pairs cs true

loop-hooks :
    (room n : ℕ) (c : Code)
    → n ≤ room
    → c.addr / 2 ^ 25 ≡ 72
    → length ((setup_loop room (replicate n c) true).hooks) ≡ n
unfolding setup_loop is_hook has_operand
loop-hooks zero zero c h e = refl
loop-hooks zero (suc n) c h e = absurd (omega arith)
loop-hooks (suc room) zero c h e = refl
loop-hooks (suc room) (suc n) c h e =
    let a : is_end c ≡ false = ground (arith, e) in
    let b : is_hook c ≡ true = ground (arith, e) in
    let o : has_operand c ≡ false = ground (arith, e) in
    let ih = loop-hooks room n c (omega arith) e in simp (a, b, o) (omega (arith, ih))

-- For every number of equal hook codes up to 255, `SetupCheats` stores as many hooks: it does not stop
-- at `MAX_HOOKS`, which is 5.
pub setup_cheats-hooks :
    (n : ℕ) (c : Code)
    → n ≤ max_cheatlist_pairs
    → c.addr / 2 ^ 25 ≡ 72
    → length ((setup_cheats (replicate n c)).hooks) ≡ n
unfolding setup_cheats
setup_cheats-hooks n c h e = loop-hooks max_cheatlist_pairs n c h e
