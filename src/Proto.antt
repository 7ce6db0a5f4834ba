-- ===== src/Proto.antt =====
pub mod Const
pub mod BigInt
pub mod Utf8
pub mod Errors
pub mod RowOutput
pub mod RowInput
pub mod Frame
pub mod Types
pub mod Metadata
pub mod Result
