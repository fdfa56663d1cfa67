-- ===== src/Go/Text.antt =====
-- Go strings as lists of code points, with the functions of `strings` and `strconv` that the
-- program calls.
mod Equality
mod Space
mod Search
mod Decimal
pub use Equality.{Text, text_eq_iff, text_eq_refl}
unfoldable pub use Equality.{codes, text_eq}
pub use Space.{Solid, trim_space_of_Solid, fields-Solid, length-fields_of_Solid}
unfoldable pub use Space.{is_space, trim_space, fields}
pub use Search.{contains-append, lower_idem, to_lower_idem, length-to_lower, length-trim_prefix}
unfoldable pub use Search.{
  has_prefix, trim_prefix, contains, before, split, lower, to_lower, is_hex_digit,
}
pub use Decimal.{digits_value-decimal}
unfoldable pub use Decimal.{digits, decimal, decimal_ℤ, digits_value, parse_int64, parse_uint64}
