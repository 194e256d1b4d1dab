-- ===== src/Base.antt =====
-- The names that the other modules share: the libraries', passed on, and those of the children.
pub mod Tests
pub mod Lists
pub mod Maps
pub mod Ints
pub mod Texts
pub mod Places
pub mod Wrap
pub use Tests.*
pub use Lists.*
pub use Places.*
unfoldable pub use Texts.{text_eq, c_str, split_at, skip_spaces, trim_end}
pub use Texts.{
  codes, is_space, to_lower, Without, split_at-append, split_at-none, text_eq_refl, text_eq-eq,
}
unfoldable pub use Maps.{text_dec, contains}
pub use Maps.{Text, update, update_self, update_ne, contains-snoc, values_of, values_of-append}
unfoldable pub use Ints.{incr, decr, ℤ_dec}
pub use Ints.{ℤ, pos, negsuc, is_zero, is_one}
pub use Prim.Native.Nat.{ℕ, zero, suc, ◌+◌, ◌-◌, ◌*◌, ◌/◌, ◌%◌, ◌^◌, ◌≤◌, ◌<◌, bit_xor, min, max}
pub use mathlib.Core.Path.{◌≡◌, refl, sym, ap, ap₂, subst, ◌∙◌, ◌≡⟨◌⟩◌, ◌∎}
pub use mathlib.Core.Logic.{ite, dite, if_pos, if_neg, ◌≢◌, ◌↔◌, ◌⊎◌, inl, inr}
pub use mathlib.Core.Bool.{Bool, true, false, not, ◌&&◌, ◌||◌}
pub use mathlib.Core.Option.{Option, none, some}
pub use mathlib.Core.List.{List, [], ◌∷◌, ◌++◌, map, append-nil, append_assoc}
pub use native.Mathlib.Omega.{arith}
unfoldable pub use native.Mathlib.Decide.{ℕ_discrete, dec_lt}
