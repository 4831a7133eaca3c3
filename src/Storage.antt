-- ===== src/Storage.antt =====
-- storage/: the processes that create, update and attach containers and create datasets.
pub mod Create
pub mod Update
pub mod Dataset
pub mod Attach
