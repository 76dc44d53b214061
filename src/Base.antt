-- ===== src/Base.antt =====
-- The names that the modules of this development share: the libraries', passed on, and those of
-- the children, which hold Boolean tests and lists over the native numbers.
mod Tests
mod Lists
mod Nodes
pub use Tests.*
pub use Lists.*
pub use Nodes.*
pub use Prim.Native.Nat.{ℕ, zero, suc, ◌+◌, ◌-◌, ◌*◌, ◌/◌, ◌%◌, ◌^◌, ◌≤◌, ◌<◌, min, bit_and, bit_or}
pub use mathlib.Core.Path.{
  ◌≡◌, refl, sym, ap, ap₂, subst, transport, subst₂, subst₃, ◌∙◌, ◌≡⟨◌⟩◌, ◌∎,
}
pub use mathlib.Core.Logic.{◌≢◌, ◌↔◌, ◌⊎◌, inl, inr}
pub use mathlib.Core.Bool.{Bool, true, false, not, ◌&&◌, ◌||◌}
pub use mathlib.Core.Option.{Option, none, some}
pub use mathlib.Core.List.{List, [], ◌∷◌, ◌++◌, map, append-nil, append_assoc}
pub use native.Mathlib.Omega.{arith, mod_fact}
unfoldable pub use native.Mathlib.Decide.{dec_lt, ℕ_discrete}
