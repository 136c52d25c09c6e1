-- ===== src/Meta.antt =====
-- src/meta: the directory tree in memory and the metadata operations over it and a backend.
pub mod Heap
pub mod Dentry
pub mod Impl
pub mod Local
mod Examples
pub mod Sample
