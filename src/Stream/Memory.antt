-- ===== src/Stream/Memory.antt =====
-- What a write of consecutive sectors leaves in memory, and what a copy of consecutive sectors takes.
use opl_future_beta.Base.{
  ℕ, zero, suc, ◌+◌, ◌≤◌, ◌<◌, ◌≡◌, refl, ◌∙◌, ap, ap₂, ◌++◌, ◌⊎◌, inl, List, [], ◌∷◌, set, get_or,
  length, length-set, get_or-set_self, get_or-set_ne, arith,
}
use opl_future_beta.Stream.State.{u32, write_run}
use opl_future_beta.Stream.Reader.{slice}

-- The `n` sectors of the disc from `pos` on. Addresses are 32 bits wide.
unfoldable pub sectors : (ℕ → ℕ) → ℕ → ℕ → List ℕ
sectors disc pos zero = []
sectors disc pos (suc n) = disc (u32 pos) ∷ sectors disc (pos + 1) n

-- An index may be written in two ways.
at_eq : (xs : List ℕ) (i j : ℕ) → i ≡ j → get_or xs i 0 ≡ get_or xs j 0
at_eq xs i j e = ap (λ k. get_or xs k 0) e

module _ (disc : ℕ → ℕ) where
  pub length-write_run :
      (buf : List ℕ) (i lba n : ℕ) → length (write_run disc buf i lba n) ≡ length buf
  unfolding write_run
  length-write_run buf i lba zero = refl
  length-write_run buf i lba (suc n) =
      length-write_run (set buf i (disc (u32 lba))) (i + 1) (lba + 1) n ∙ length-set buf i _

  pub get_or-write_run_out :
      (buf : List ℕ) (i lba n k : ℕ)
      → (k < i) ⊎ (i + n ≤ k)
      → get_or (write_run disc buf i lba n) k 0 ≡ get_or buf k 0
  unfolding write_run
  get_or-write_run_out buf i lba zero k h = refl
  get_or-write_run_out buf i lba (suc n) k h =
      get_or-write_run_out (set buf i (disc (u32 lba))) (i + 1) (lba + 1) n k (omega arith)
      ∙ get_or-set_ne buf i k _ 0 (omega arith)

  pub get_or-write_run_in :
      (buf : List ℕ) (i lba n j k : ℕ)
      → j < n
      → k ≡ i + j
      → i + n ≤ length buf
      → get_or (write_run disc buf i lba n) k 0 ≡ disc (u32 (lba + j))
  unfolding write_run
  get_or-write_run_in buf i lba zero j k h e r = absurd (omega arith)
  get_or-write_run_in buf i lba (suc n) zero k h e r =
      let e' : k ≡ i = omega arith in
      get_or-write_run_out (set buf i (disc (u32 lba))) (i + 1) (lba + 1) n k (inl (omega arith))
      ∙ ap (λ x. get_or (set buf i (disc (u32 lba))) x 0) e'
      ∙ get_or-set_self buf i (disc (u32 lba)) 0 (omega arith)
      ∙ ap (λ x. disc (u32 x)) (omega arith)
  get_or-write_run_in buf i lba (suc n) (suc j) k h e r =
      get_or-write_run_in (set buf i (disc (u32 lba))) (i + 1) (lba + 1) n j k (omega arith)
        (omega arith) (omega (arith, length-set buf i (disc (u32 lba))))
      ∙ ap (λ x. disc (u32 x)) (omega arith)

  pub slice-eq-sectors :
      (buf : List ℕ) (i n pos : ℕ)
      → i + n ≤ length buf
      → ((j : ℕ) → j < n → get_or buf (i + j) 0 ≡ disc (u32 (pos + j)))
      → slice buf i n ≡ sectors disc pos n
  unfolding sectors
  slice-eq-sectors buf i zero pos r h = refl
  slice-eq-sectors [] i (suc n) pos r h = absurd (omega arith)
  slice-eq-sectors (x ∷ xs) zero (suc n) pos r h =
      ap₂ ◌∷◌ (h 0 (omega arith) ∙ ap (λ y. disc (u32 y)) (omega arith)) (
        slice-eq-sectors xs 0 n (pos + 1) (omega arith) (λ j l.
          at_eq (x ∷ xs) (suc (0 + j)) (0 + suc j) (omega arith)
          ∙ h (suc j) (omega arith)
          ∙ ap (λ y. disc (u32 y)) (omega arith)))
  slice-eq-sectors (x ∷ xs) (suc i) (suc n) pos r h =
      slice-eq-sectors xs i (suc n) pos (omega arith)
        (λ j l. at_eq (x ∷ xs) (suc (i + j)) (suc i + j) (omega arith) ∙ h j l)

  pub length-sectors : (pos n : ℕ) → length (sectors disc pos n) ≡ n
  unfolding sectors
  length-sectors pos zero = refl
  length-sectors pos (suc n) = ap suc (length-sectors (pos + 1) n)

  pub sectors-append :
      (pos n m : ℕ) → sectors disc pos n ++ sectors disc (pos + n) m ≡ sectors disc pos (n + m)
  unfolding sectors
  sectors-append pos zero m = ap₂ (sectors disc) (omega arith) (omega arith)
  sectors-append pos (suc n) m =
      ap (λ r. disc (u32 pos) ∷ r)
        (ap (λ p. sectors disc (pos + 1) n ++ sectors disc p m) {x = pos + suc n} {y = pos + 1 + n}
            (omega arith)
          ∙ sectors-append (pos + 1) n m)
      ∙ ap (sectors disc pos) {x = suc (n + m)} {y = suc n + m} (omega arith)

  pub sectors_zero : (pos : ℕ) → sectors disc pos 0 ≡ []
  unfolding sectors
  sectors_zero pos = refl
