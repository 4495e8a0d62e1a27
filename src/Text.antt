-- ===== src/Text.antt =====
-- Go strings as sequences of bytes, and the functions of the standard library's `strings` that
-- the operator uses. Texts are ASCII where white space is trimmed.
mod Defs
mod Equality
mod Splitting
pub mod Integers
unfoldable pub use Defs.{
  str_eq, prepend_head, split, split2, join, is_space, trim_left, trim_space, has_prefix, contains,
  index_byte, replace_byte, trim_right_byte, to_lower, decimal_digits, decimal, member,
}
pub use Defs.{Str, codes}
pub use Equality.*
pub use Splitting.*
