-- ===== src/Base/Nodes.antt =====
-- Singly linked lists with a pointer to the last node. `addr` gives the address of a node.
use Prim.Native.Nat.{ℕ}
use mathlib.Core.Path.{◌≡◌, refl, ap}
use mathlib.Core.Logic.{◌≢◌}
use mathlib.Core.Bool.{Bool, true, false}
use mathlib.Core.Option.{Option, none, some}
use mathlib.Core.List.{List, [], ◌∷◌, ◌++◌}
use native.Mathlib.Omega.{arith}
use opl_future_beta.Base.Tests.{◌==◌, if◌then◌else◌}

abbrev pub Each {ℓ κ} : {A : Type ℓ} → (A → Type κ) → List A → Type κ
Each P [] = Unit
Each P (x ∷ xs) = P x × Each P xs

-- Whether a node's address is the one in a pointer.
abbrev pub is_at : ℕ → Option ℕ → Bool
is_at a none = false
is_at a (some b) = a == b

module _ {A : Type 0} (addr : A → ℕ) where
  -- The address of the last node, `before` for an empty list.
  abbrev pub last_addr : Option ℕ → List A → Option ℕ
  last_addr before [] = before
  last_addr before (x ∷ xs) = last_addr (some (addr x)) xs

  abbrev pub Apart : List A → Type 0
  Apart [] = Unit
  Apart (x ∷ xs) = Each (λ y. addr y ≢ addr x) xs × Apart xs

  -- `next` of the node at `t` is set to a new node, the last one.
  abbrev pub link_behind : ℕ → A → List A → List A
  link_behind t new [] = []
  link_behind t new (x ∷ xs) =
      let rest = link_behind t new xs in if addr x == t then x ∷ new ∷ [] else x ∷ rest

  pub last_addr-some : (a : ℕ) (xs : List A) → last_addr (some a) xs ≢ none
  last_addr-some a [] h = cc
  last_addr-some a (x ∷ xs) h = last_addr-some (addr x) xs h

  last_addr-ne :
      (a : ℕ) (y : A) (ys : List A)
      → addr y ≢ a
      → Each (λ z. addr z ≢ a) ys
      → last_addr (some (addr y)) ys ≢ some a
  last_addr-ne a y [] n h q = ground arith
  last_addr-ne a y (z ∷ zs) n h q = last_addr-ne a z zs (h.0) (h.1) q

  -- The node at the tail is the last one.
  pub link_behind-append :
      (t : ℕ) (new x : A) (xs : List A)
      → Apart (x ∷ xs)
      → last_addr (some (addr x)) xs ≡ some t
      → link_behind t new (x ∷ xs) ≡ x ∷ (xs ++ new ∷ [])
  link_behind-append t new x [] d e = let k : (addr x == t) ≡ true = ground arith in rw k
  link_behind-append t new x (y ∷ ys) d e =
      let k : (addr x == t) ≡ false = ground (arith, last_addr-ne (addr x) y ys (d.0.0) (d.0.1)) in
      simp k (ap (λ r. x ∷ r) (link_behind-append t new y ys (d.1) e))

  pub last_addr-append :
      (before : Option ℕ) (xs : List A) (x : A) → last_addr before (xs ++ x ∷ []) ≡ some (addr x)
  last_addr-append before [] x = refl
  last_addr-append before (y ∷ ys) x = last_addr-append (some (addr y)) ys x

  not_last :
      (a : ℕ) (y : A) (ys : List A)
      → addr y ≢ a
      → Each (λ z. addr z ≢ a) ys
      → is_at a (last_addr (some (addr y)) ys) ≡ false
  not_last a y [] n h = ground arith
  not_last a y (z ∷ zs) n h = not_last a z zs (h.0) (h.1)

  -- The tail after a node has been taken out.
  pub cut_last :
      (x : A) (xs : List A) (prev tail : Option ℕ)
      → Apart (x ∷ xs)
      → tail ≡ last_addr (some (addr x)) xs
      → (if is_at (addr x) tail then prev else tail) ≡ last_addr prev xs
  cut_last x [] prev tail d e = rw e (let k : (addr x == addr x) ≡ true = ground arith in rw k)
  cut_last x (y ∷ ys) prev tail d e = rw e (rw (not_last (addr x) y ys (d.0.0) (d.0.1)))

pub Each-append :
    {A : Type 0} (P : A → Type 0) (xs : List A) (y : A) → Each P xs → P y → Each P (xs ++ y ∷ [])
Each-append P [] y h k = (k, tt)
Each-append P (x ∷ xs) y h k = (h.0, Each-append P xs y (h.1) k)

pub Each-mono :
    {A : Type 0} {P Q : A → Type 0} (xs : List A) → ((x : A) → P x → Q x) → Each P xs → Each Q xs
Each-mono [] f h = tt
Each-mono (x ∷ xs) f h = (f x (h.0), Each-mono xs f (h.1))
