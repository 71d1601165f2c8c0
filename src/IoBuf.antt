-- ===== src/IoBuf.antt =====
-- The chained buffer of inc/fast_iobuf.h, inc/fast_iobuf_inl.h and src-common/fast_iobuf.cc.
pub mod Store
pub mod View
pub mod Refs
pub mod Ring
pub mod Push
pub mod Pop
pub mod Bytes
pub mod Shares
pub mod Cut
pub mod Copy
pub mod Equals
pub mod Resize
pub mod Reader
pub mod Append
pub mod Blocks
mod Tests
