-- ===== src/Common.antt =====
-- The names that the other modules share: the libraries', passed on, and those of the children
-- (Boolean tests, lists over the native numbers, Python dictionaries, texts).
mod Tests
mod Lists
mod Dicts
mod Values
mod Text
mod Words
mod Integers
pub use Tests.*
unfoldable pub use Lists.{push_bounded}
pub use Lists.{
  length, get_elem?, set, take, drop, keep, all_of, any_of, find_first, take_last, remove_at, last?,
  append-cons, length-append, length-set, length-take, length-drop, take-append-drop,
  length-keep-le, last?-append, last?-drop, drop-append, length-push_bounded, last?-push_bounded,
}
pub use Values.*
pub use Integers.*
unfoldable pub use Words.{split_from, lstrip_chars, rstrip_chars, strip_chars, join_texts}
pub use Words.{split_words}
pub use Text.{codes, split_once-has_code}
unfoldable pub use Text.{is_space, is_blank, has_code, lstrip, rstrip, strip, split_once, take_text}
unfoldable pub use Dicts.{get, put, remove, has, remove_all}
pub use Dicts.{
  Dict, keys, values, all_of-put, all_of-remove, get-put, get-remove, get-put_self, has-put_self,
  dict_laws, mem_text, get-remove_all, mem_text-keep, mem_text-keys, mem_text-append, keys-append,
  put-append,
}
pub use Prim.Native.Nat.{ℕ, zero, suc, ◌+◌, ◌-◌, ◌*◌, ◌/◌, ◌%◌, ◌^◌, ◌≤◌, ◌<◌, min, max}
pub use Prim.Native.String.{String, ◌++◌ as str_append}
pub use mathlib.Core.Path.{◌≡◌, refl, sym, ap, ◌∙◌, subst}
pub use mathlib.Core.Logic.{◌≢◌, ◌↔◌, ◌⊎◌, inl, inr}
pub use mathlib.Core.Bool.{Bool, true, false, not, ◌&&◌, ◌||◌}
pub use mathlib.Core.Option.{Option, none, some}
pub use mathlib.Core.List.{List, [], ◌∷◌, ◌++◌, map, append-nil, append_assoc, map-append}
pub use native.Mathlib.Omega.{arith}
pub use text.Mathlib.Text.{◌==◌ as str_eq}
pub use text.Mathlib.TextEquality.{eq_iff}
