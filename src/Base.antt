-- ===== src/Base.antt =====
-- What the components share of the Go runtime: strings, instants, errors and results.
pub mod Strings
pub mod Clock
pub mod Errors
pub mod Maps
pub use Strings.{Bytes, Text, text}
unfoldable pub use Strings.{
  text_eq, text_discrete, valid_text, valid_runtime_text, valid_activity_digest,
}
pub use Clock.{Time, Zoned}
unfoldable pub use Clock.{
  zero_time, is_zero, before, after, add, schedule_time_valid, utc, zoned_eq, zoned_discrete,
  json_time,
}
unfoldable pub use Errors.*
unfoldable pub use Maps.*
