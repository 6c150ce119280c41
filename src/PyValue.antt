-- ===== src/PyValue.antt =====
-- Values of the Python program that come from JSON or from a caller: what `isinstance`, `int()`,
-- `in` and indexing make of them. They are Python's own and belong to no file of the repository.
mod Text
mod Dict
mod Update
mod Keys
pub use Text.{parse_int, contains}
unfoldable pub use Text.{codes, lower, is_blank_text}
pub use Dict.*
unfoldable pub use Dict.{get, insert, to_int}
pub use Update.*
pub use Keys.*
unfoldable pub use Keys.{TextKeys, TextFields}
unfoldable pub use Update.{update, equals_nat, remove}
