-- ===== src/Lob.antt =====
-- lob.go: large objects. The parameters and the fetch of LOBs, and the frames that carry them.
pub mod Utf16
pub mod Frames
pub mod Params
pub mod Response
pub mod Fetch
pub mod Resolve
