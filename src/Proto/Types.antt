-- ===== src/Proto/Types.antt =====
-- internal/proto/types.go: column types, the values of the driver, their coercions and their codec.
pub mod Kind
pub mod Value
pub mod Decimal
pub mod Interval
pub mod Coerce
pub mod Write
pub mod Read
pub mod Sends
pub mod RoundTrip
