-- ===== src/Storage.antt =====
-- The files that `LinuxPersistent` works on (Implementation/LinuxPersistent.{h,cpp}). Its SD library
-- and the compiler's struct layouts are not in the repository: they are the record `Platform`, a
-- parameter of the model with the documented behaviour as laws.
pub mod Entries
pub mod Splice
pub mod Platform
pub mod Table
