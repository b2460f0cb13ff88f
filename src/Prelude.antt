-- ===== src/Prelude.antt =====
-- Names that every module shares: the library's, passed on, and those of the children.
mod Tests
mod Lists
mod Int
mod Maps
mod Sort
mod Results
mod Texts
mod Format
pub mod Logged
pub mod Letters
pub mod Durations
pub use Tests.*
pub use Lists.*
pub use Int.*
pub use Maps.*
unfoldable pub use Maps.{get, put, remove}
pub use Sort.*
pub use Results.*
pub use Texts.{is_some, cut_prefix-cancel, cut_prefix-append}
unfoldable pub use Format.{hexadecimal, join, quote, split_at}
unfoldable pub use Texts.{
  decimal, cut_prefix, has_prefix, trim_prefix, trim_suffix, has_char, path_dir, path_ext,
  trim_space,
}
unfoldable pub use Sort.{sort, insert_sorted}
pub use Prim.Native.Nat.{ℕ, zero, suc, ◌+◌, ◌-◌, ◌*◌, ◌/◌, ◌%◌, ◌^◌, ◌≤◌, ◌<◌, min, max}
pub use Prim.Native.String.{String}
pub use mathlib.Core.Path.{◌≡◌, refl, sym, ap, ◌∙◌}
pub use mathlib.Core.Logic.{◌≢◌, ◌↔◌, ◌⊎◌, inl, inr}
pub use mathlib.Core.Bool.{Bool, true, false, not, ◌&&◌, ◌||◌}
pub use mathlib.Core.Option.{Option, none, some}
pub use mathlib.Core.List.{List, [], ◌∷◌, append-nil, append_assoc, map-append}
unfoldable pub use mathlib.Core.List.{◌++◌, map}
pub use native.Mathlib.Omega.{arith}
pub use text.Mathlib.Text.{◌==◌ as ◌=ˢ◌}
pub use text.Mathlib.TextEquality.{eq_iff}
pub use text.Mathlib.TextPositions.{eq_refl}
