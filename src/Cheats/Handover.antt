-- ===== src/Cheats/Handover.antt =====
-- What the loader's `SetupCheats` of ee_core/src/cheat_api.c gets from `set_cheats_list` of src/cheatman.c.
use opl_future_beta.Base.{
  ltb→lt, ℕ, zero, suc, ◌+◌, ◌-◌, ◌*◌, ◌≤◌, ◌≡◌, ◌∙◌, ap, refl, sym, Bool, true, false, ◌&&◌, List,
  [], ◌∷◌, ◌++◌, ltb, leb, ◌==◌, min, if◌then◌else◌, if-elim, length, take, take_all, replicate,
  length-append, append-nil, append_assoc, arith, Each,
}
use opl_future_beta.Text.{unlines}
use opl_future_beta.Cheats.{
  Code, CheatLists, max_codes, is_end, is_hook, has_operand, hook_of, setup_loop, setup_cheats,
  max_cheatlist_pairs,
}
use opl_future_beta.Cheats.Counts.{used, setup_cheats-Counted}
use opl_future_beta.Cheats.Parser.{
  Cheat, max_entry_codes, Parsed, parsed, overrun, past_end, unfinished, parse_buf,
}
use opl_future_beta.Cheats.Printed.{
  IsCheat, cheat_lines, parse_buf-cheat_lines, push_all, between, last_count,
}
use opl_future_beta.Cheats.Selection.{no_code, add_codes, add_cheats, set_cheats_list, live, wanted}

take-take_append : (n : ℕ) (xs ys : List Code) → take n (take n xs ++ ys) ≡ take n (xs ++ ys)
take-take_append zero xs ys = refl
take-take_append (suc n) [] ys = refl
take-take_append (suc n) (x ∷ xs) ys = ap (λ r. x ∷ r) (take-take_append n xs ys)

take-full : (n : ℕ) (xs ys : List Code) → n ≤ length xs → take n (xs ++ ys) ≡ take n xs
take-full zero xs ys h = refl
take-full (suc n) [] ys h = absurd (omega (arith, h))
take-full (suc n) (x ∷ xs) ys h = ap (λ r. x ∷ r) (take-full n xs ys (omega (arith, h)))

add_codes-live :
    (left : ℕ) (codes out : List Code)
    → length out ≤ max_cheatlist_pairs
    → add_codes left codes out ≡ take max_cheatlist_pairs (out ++ live (take left codes))
unfolding add_codes
add_codes-live zero codes out h =
    sym (ap (take max_cheatlist_pairs) (append-nil out) ∙ take_all max_cheatlist_pairs out h)
add_codes-live (suc left) [] out h =
    sym (ap (take max_cheatlist_pairs) (append-nil out) ∙ take_all max_cheatlist_pairs out h)
add_codes-live (suc left) (c ∷ codes) out h =
    by_addr (λ le. add_codes-live left codes (out ++ c ∷ []) le) (c.addr == 0)
  where
    by_room :
        (length (out ++ c ∷ []) ≤ max_cheatlist_pairs
          → add_codes left codes (out ++ c ∷ [])
            ≡ take max_cheatlist_pairs ((out ++ c ∷ []) ++ live (take left codes)))
        → (if leb (2 * length out + 2) 510 then add_codes left codes (out ++ c ∷ []) else out)
          ≡ take max_cheatlist_pairs (out ++ c ∷ live (take left codes))
    by_room ih =
        if-elim (λ r. r ≡ take max_cheatlist_pairs (out ++ c ∷ live (take left codes)))
          (leb (2 * length out + 2) 510)
          (λ t.
            ih (ground (arith, t, length-append {0} out (c ∷ [])))
            ∙ ap (take max_cheatlist_pairs) (append_assoc out (c ∷ []) (live (take left codes))))
          (λ t. sym (
            take-full max_cheatlist_pairs out (c ∷ live (take left codes)) (ground (arith, t))
            ∙ take_all max_cheatlist_pairs out h))

    by_addr :
        (length (out ++ c ∷ []) ≤ max_cheatlist_pairs
          → add_codes left codes (out ++ c ∷ [])
            ≡ take max_cheatlist_pairs ((out ++ c ∷ []) ++ live (take left codes)))
        → (b : Bool)
        → (if b
            then out
            else if leb (2 * length out + 2) 510
            then add_codes left codes (out ++ c ∷ [])
            else out)
          ≡ take max_cheatlist_pairs (out ++ (if b then [] else c ∷ live (take left codes)))
    by_addr ih true =
        sym (ap (take max_cheatlist_pairs) (append-nil out) ∙ take_all max_cheatlist_pairs out h)
    by_addr ih false = by_room ih

length-take_le : (n : ℕ) (xs : List Code) → length (take n xs) ≤ n
length-take_le zero xs = omega arith
length-take_le (suc n) [] = omega arith
length-take_le (suc n) (x ∷ xs) = omega (arith, length-take_le n xs)

add_cheats-wanted :
    (cs : List Cheat) (out : List Code)
    → length out ≤ max_cheatlist_pairs
    → add_cheats cs out ≡ take max_cheatlist_pairs (out ++ wanted cs)
unfolding add_cheats
add_cheats-wanted [] out h =
    sym (ap (take max_cheatlist_pairs) (append-nil out) ∙ take_all max_cheatlist_pairs out h)
add_cheats-wanted (ch ∷ cs) out h = by_enabled (add_cheats-wanted cs) (ch.enabled)
  where
    by_enabled :
        ((l : List Code)
          → length l ≤ max_cheatlist_pairs
          → add_cheats cs l ≡ take max_cheatlist_pairs (l ++ wanted cs))
        → (b : Bool)
        → add_cheats cs (if b then add_codes max_entry_codes (ch.codes) out else out)
          ≡ take max_cheatlist_pairs
              (out ++ ((if b then live (take max_entry_codes (ch.codes)) else []) ++ wanted cs))
    by_enabled ih false = ih out h
    by_enabled ih true =
        let mine = live (take max_entry_codes (ch.codes)) in
        let e = add_codes-live max_entry_codes (ch.codes) out h in
        ih (add_codes max_entry_codes (ch.codes) out)
          (omega (arith, ap length e, length-take_le max_cheatlist_pairs (out ++ mine)))
        ∙ ap (λ l. take max_cheatlist_pairs (l ++ wanted cs)) e
        ∙ take-take_append max_cheatlist_pairs (out ++ mine) (wanted cs)
        ∙ ap (take max_cheatlist_pairs) (append_assoc out mine (wanted cs))

take-short : (n : ℕ) (xs : List Code) → length (take (suc n) xs) ≤ n → take (suc n) xs ≡ take n xs
take-short zero [] h = refl
take-short zero (x ∷ xs) h = absurd (omega (arith, h))
take-short (suc n) [] h = refl
take-short (suc n) (x ∷ xs) h = ap (λ r. x ∷ r) (take-short n xs (omega (arith, h)))

take-take-suc : (n : ℕ) (xs : List Code) → take n (take (suc n) xs) ≡ take n xs
take-take-suc zero xs = refl
take-take-suc (suc n) [] = refl
take-take-suc (suc n) (x ∷ xs) = ap (λ r. x ∷ r) (take-take-suc n xs)

-- A terminator behind the codes changes nothing.
setup_loop-end :
    (room : ℕ) (xs rest : List Code) (b : Bool)
    → setup_loop room (xs ++ no_code ∷ rest) b ≡ setup_loop room xs b
unfolding setup_loop
setup_loop-end zero [] rest b = refl
setup_loop-end zero (x ∷ xs) rest b = refl
setup_loop-end (suc room) [] rest b = refl
setup_loop-end (suc room) (x ∷ xs) rest b =
    ap (round x (is_end x) (is_hook x && b))
      (setup_loop-end room xs rest (if has_operand x then false else true))
  where
    round : Code → Bool → Bool → CheatLists → CheatLists
    round c e k r =
        if e
        then record { hooks = []; codes = [] }
        else if k
        then record { hooks = hook_of c ∷ r.hooks; codes = r.codes }
        else record { hooks = r.hooks; codes = c ∷ r.codes }

-- The list as it is left, with the pairs stored.
handed :
    (out all : List Code)
    → out ≡ take max_cheatlist_pairs all
    → setup_cheats (
        if ltb (length out) max_cheatlist_pairs
        then out ++ replicate (max_cheatlist_pairs - length out) no_code
        else take (max_cheatlist_pairs - 1) out ++ no_code ∷ [])
      ≡ setup_cheats (take (max_cheatlist_pairs - 1) all)
unfolding setup_cheats
handed out all e =
    let setup = λ (l : List Code). setup_loop max_cheatlist_pairs l true in
    if-elim (λ l. setup l ≡ setup (take 254 all)) (ltb (length out) max_cheatlist_pairs)
      (λ t.
        let lt = ltb→lt (length out) max_cheatlist_pairs t in
        let k : max_cheatlist_pairs - length out ≡ suc (254 - length out) = omega (arith, lt) in
        ap (λ n. setup (out ++ replicate n no_code)) k
        ∙ setup_loop-end max_cheatlist_pairs out (replicate (254 - length out) no_code) true
        ∙ ap setup (e ∙ take-short 254 all (omega (arith, lt, ap length e))))
      (λ t.
        setup_loop-end max_cheatlist_pairs (take 254 out) [] true
        ∙ ap setup (ap (take 254) e ∙ take-take-suc 254 all))

-- A code that the list can hold: an address.
abbrev HasAddr : Code → Type 0
HasAddr c = (c.addr == 0) ≡ false

live-HasAddr : (codes : List Code) → Each HasAddr (live codes)
live-HasAddr [] = tt
live-HasAddr (c ∷ codes) = by (c.addr == 0) refl (live-HasAddr codes)
  where
    by :
        (b : Bool)
        → (c.addr == 0) ≡ b
        → Each HasAddr (live codes)
        → Each HasAddr (if b then [] else c ∷ live codes)
    by true e ih = tt
    by false e ih = (e, ih)

Each-join :
    {A : Type 0} (P : A → Type 0) (xs ys : List A) → Each P xs → Each P ys → Each P (xs ++ ys)
Each-join P [] ys h k = k
Each-join P (x ∷ xs) ys h k = (h.0, Each-join P xs ys (h.1) k)

wanted-HasAddr : (cs : List Cheat) → Each HasAddr (wanted cs)
wanted-HasAddr [] = tt
wanted-HasAddr (ch ∷ cs) =
    Each-join HasAddr (if ch.enabled then live (take max_entry_codes (ch.codes)) else [])
      (wanted cs)
      (if-elim (Each HasAddr) (ch.enabled) (λ _. live-HasAddr (take max_entry_codes (ch.codes)))
        (λ _. tt))
      (wanted-HasAddr cs)

used-take :
    (n room : ℕ) (xs : List Code)
    → n ≤ room
    → Each HasAddr xs
    → used room (take n xs) ≡ min n (length xs)
used-take zero zero xs h v = omega arith
used-take zero (suc room) xs h v = omega arith
used-take (suc n) zero xs h v = absurd (omega (arith, h))
used-take (suc n) (suc room) [] h v = omega arith
used-take (suc n) (suc room) (x ∷ xs) h v =
    let e : is_end x ≡ false = ground (arith, v.0) in
    let ih = used-take n room xs (omega (arith, h)) (v.1) in rw e (omega (arith, ih))

-- The loader gets from `set_cheats_list` the first 254 of the codes that the enabled cheats ask for, an entry's
-- codes counting up to one without an address: it sorts them as it would sort these codes alone, and
-- stores as many hooks and codes as there are of them, or 254.
pub set_cheats_list-setup :
    (cs : List Cheat)
    → (setup_cheats (set_cheats_list cs)
        ≡ setup_cheats (take (max_cheatlist_pairs - 1) (wanted cs)))
      × (length ((setup_cheats (set_cheats_list cs)).hooks)
            + length ((setup_cheats (set_cheats_list cs)).codes)
          ≡ min (max_cheatlist_pairs - 1) (length (wanted cs)))
unfolding set_cheats_list
set_cheats_list-setup cs =
    let e = handed (add_cheats cs []) (wanted cs) (add_cheats-wanted cs [] (omega arith)) in
    let n = λ (l : CheatLists). length (l.hooks) + length (l.codes) in
    (
      e,
      ap n e
          ∙ (setup_cheats-Counted (take 254 (wanted cs))).total
          ∙ used-take 254 max_cheatlist_pairs (wanted cs) (omega arith) (wanted-HasAddr cs),
    )

-- The entries of `gCheats`, in their order.
abbrev pub loaded : Parsed → List Cheat
loaded (parsed p) = push_all (p.cheats) []
loaded overrun = []
loaded past_end = []
loaded unfinished = []

-- From a cheat file to the engine: of up to 250 cheats that a file can hold, each with a name and at least
-- one code, the loader sorts the first 254 of the codes that these cheats ask for, in the file's order.
pub parse_buf-setup :
    (cs : List Cheat)
    → Each IsCheat cs
    → length cs ≤ max_codes
    → setup_cheats (set_cheats_list (loaded (parse_buf (unlines (cheat_lines cs)))))
      ≡ setup_cheats (take (max_cheatlist_pairs - 1) (wanted cs))
parse_buf-setup cs v h =
    let b : leb (length cs) max_codes ≡ true = ground (arith, h) in
    ap (λ r. setup_cheats (set_cheats_list (loaded r)))
      (parse_buf-cheat_lines cs v
        ∙ ap (λ t. if t then parsed (between (push_all cs []) (last_count 0 cs)) else overrun) b)
    ∙ ap (λ l. setup_cheats (set_cheats_list l)) (push_all_twice cs [] [] ∙ append-nil cs)
    ∙ (set_cheats_list-setup cs).0
  where
    push_all_twice : (a b c : List Cheat) → push_all (push_all a b) c ≡ push_all b (a ++ c)
    push_all_twice [] b c = refl
    push_all_twice (x ∷ a) b c = push_all_twice a (x ∷ b) c
