-- ===== src/History/Tests.antt =====
-- Runs of the play history of src/OSDHistory.c, and the theorems at concrete inputs.
use opl_future_beta.Base.{
  ℕ, zero, suc, ◌≡◌, refl, List, [], ◌∷◌, some, inl, inr, arith, take, replicate,
}
use opl_future_beta.Text.{Str, strncmp_eq}
use opl_future_beta.History.{
  HistoryEntry, has_name, free_bit, launch_entry, least_step, scan_entries, choose_slot, new_entry,
  record_new, add_record, Recorded, clear_history, Launch, add_records,
}
use opl_future_beta.History.Names.{IsName, Fair}
use opl_future_beta.History.Victim.{least_from}
use opl_future_beta.History.BootPath.{get_boot_filename, last_separator, path_length}
use opl_future_beta.History.Recording.{IsHistory, Records, add_record-Records}
use opl_future_beta.History.Keeping.{clear-IsHistory, add_records-IsHistory}

-- SLUS_200.01
abbrev game : Str
game = 83 ∷ 76 ∷ 85 ∷ 83 ∷ 95 ∷ 50 ∷ 48 ∷ 48 ∷ 46 ∷ 48 ∷ 49 ∷ []

-- A path that is only a file name.
only_name_code : get_boot_filename 4 game ≡ take 3 game
unfolding get_boot_filename last_separator path_length
only_name_code = refl

abbrev rands : List ℕ
rands = 7 ∷ 0 ∷ 8 ∷ 3 ∷ 10 ∷ 5 ∷ []

-- The first of `rands` chooses slot 7.
add_code : (o : Recorded) × (add_record game 100 rands clear_history ≡ some o)
unfolding add_record record_new scan_entries has_name launch_entry free_bit least_step choose_slot
    new_entry strncmp_eq
add_code = (_, refl)

game-IsName : IsName game
game-IsName = record {
  short = omega arith;
  not_empty = λ e. omega (arith, e);
  no_nul = (
    λ e. omega (arith, e),
    (
      λ e. omega (arith, e),
      (
        λ e. omega (arith, e),
        (
          λ e. omega (arith, e),
          (
            λ e. omega (arith, e),
            (
              λ e. omega (arith, e),
              (
                λ e. omega (arith, e),
                (
                  λ e. omega (arith, e),
                  (λ e. omega (arith, e), (λ e. omega (arith, e), (λ e. omega (arith, e), tt))),
                ),
              ),
            ),
          ),
        ),
      ),
    ),
  );
}

rands-Fair : Fair rands
rands-Fair zero h = inr (inl refl)
rands-Fair (suc zero) h = inl refl
rands-Fair (suc (suc zero)) h = inr (inr (inl refl))
rands-Fair (suc (suc (suc zero))) h = inr (inr (inr (inl refl)))
rands-Fair (suc (suc (suc (suc zero)))) h = inr (inr (inr (inr (inl refl))))
rands-Fair (suc (suc (suc (suc (suc zero))))) h = inr (inr (inr (inr (inr (inl refl)))))
rands-Fair (suc (suc (suc (suc (suc (suc k)))))) h = absurd (omega (arith, h))

add_record-Records_example :
    (o : Recorded) × (add_record game 100 rands clear_history ≡ some o)
    × Records game 100 clear_history o
add_record-Records_example =
    add_record-Records game 100 rands clear_history clear-IsHistory game-IsName rands-Fair

abbrev launch : Launch
launch = record { name = game; stamp = 100; rands = rands }

add_records-IsHistory_example :
    (es : List HistoryEntry) × (add_records (launch ∷ launch ∷ []) clear_history ≡ some es)
    × IsHistory es
add_records-IsHistory_example =
    add_records-IsHistory (launch ∷ launch ∷ [])
      ((game-IsName, rands-Fair), ((game-IsName, rands-Fair), tt))

abbrev entry_of : (count stamp : ℕ) → HistoryEntry
entry_of count stamp = record {
  name = replicate 16 0;
  launch_count = count;
  bitmask = 1;
  shift_amount = 0;
  date_stamp = stamp;
}

-- Of two entries with one launch the later one is chosen, because the stamp is that of a third one.
least_code :
    (least_from 0
      (entry_of 9 1 ∷ entry_of 3 20 ∷ entry_of 3 10 ∷ [])
      (record { index = 0; count = 99; stamp = 99 })).index
    ≡ 1
unfolding least_step
least_code = refl
