-- ===== src/Prelude.antt =====
-- What the components share: the libraries' names passed on, Boolean tests and lists over the
-- native numbers, signed integers, and the order on keys that the containers ask for.
mod Tests
mod Lists
pub mod Index
pub mod Mask
pub mod Copy
pub mod Int
pub mod Comparable
pub mod Ordered
pub mod Dict
pub mod Assoc
pub mod Map
pub mod Match
unfoldable pub use Tests.*
pub use Lists.*
pub use Prim.Native.Nat.{
  ℕ, zero, suc, ◌+◌, ◌-◌, ◌*◌, ◌/◌, ◌%◌, ◌^◌, ◌≤◌, ◌<◌, min, max, compare, Ordering,
}
pub use mathlib.Core.Path.{◌≡◌, refl, sym, ap, ◌∙◌}
pub use mathlib.Core.Logic.{◌≢◌, ◌↔◌, ◌⊎◌, inl, inr}
pub use mathlib.Core.Bool.{Bool, true, false, not, ◌&&◌, ◌||◌}
pub use mathlib.Core.Option.{Option, none, some}
pub use mathlib.Core.List.{List, [], ◌∷◌, ◌++◌, map, append-nil, append_assoc}
pub use native.Mathlib.Omega.{arith}

-- `do` blocks over Option: `none` is a panic of the Go runtime (a nil dereference, an index out
-- of range) in the components that use it so.
infixl 5 ◌>>=◌
abbrev pub ◌>>=◌ {ℓ κ} : {A : Type ℓ} {B : Type κ} → Option A → (A → Option B) → Option B
none >>= f = none
some a >>= f = f a
