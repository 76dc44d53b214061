-- ===== src/Stream/Bank.antt =====
-- Divisibility facts about the banks of a stream's buffer.
use opl_future_beta.Base.{ℕ, ◌+◌, ◌*◌, ◌/◌, ◌%◌, ◌^◌, ◌≤◌, ◌<◌, ◌≡◌, ap₂, ◌∙◌, arith}
use native.Mathlib.Nat.{mod-eq_of_lt}

-- Two multiples of `b`: the smaller one is a whole `b` below the other.
pub bank_fits : (b w m : ℕ) → 0 < b → w % b ≡ 0 → m % b ≡ 0 → w < m → w + b ≤ m
bank_fits b w m p hw hm lt = grind arith

pub bank_next : (b w : ℕ) → 0 < b → w % b ≡ 0 → (w + b) % b ≡ 0
bank_next b w p h = grind arith

-- `m` banks of `n / m` sectors fit into `n` sectors.
pub banks_pos : (n m : ℕ) → 0 < m → m ≤ n → 0 < n / m
banks_pos n m p le = grind arith

pub banks_fit : (n m : ℕ) → n / m * m ≤ n
banks_fit n m = grind arith

pub banks_whole : (b m : ℕ) → b * m % b ≡ 0
banks_whole b m = grind arith

pub bank-le : (n m : ℕ) → n / m ≤ n
bank-le n m = grind arith

pub product_pos : (b m : ℕ) → 0 < b → 0 < m → 0 < b * m
product_pos b m p q = grind arith

-- The words of `sceCdStInit` do not wrap.
pub banks_words :
    (n m : ℕ)
    → n < 2 ^ 16
    → m ≤ n
    → (n / m % 2 ^ 16 ≡ n / m)
      × (m % 2 ^ 16 ≡ m)
      × (n / m % 2 ^ 16 * (m % 2 ^ 16) % 2 ^ 16 ≡ n / m * m)
banks_words n m lt le =
    let a : n / m % 2 ^ 16 ≡ n / m = omega (arith, bank-le n m) in
    let b : m % 2 ^ 16 ≡ m = omega arith in
    (a, b, ap₂ (λ x y. x * y % 2 ^ 16) a b ∙ mod-eq_of_lt (omega (arith, banks_fit n m)))
