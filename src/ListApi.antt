-- ===== src/ListApi.antt =====
-- embed/src/api/list: the commands on lists. The elements of a list are the values of the data keys with
-- consecutive 64-bit numbers, which go round; the metadata holds the first number and the one after
-- the last. Definitions by the source's files: `Keys` for key.rs, `Push`, `Pop`, `Read` and `Trim` for
-- impl.rs, `Move` for move.rs. `State` and the modules behind it compare the commands with those on a plain list.
pub mod Keys
pub mod Push
pub mod Pop
pub mod Read
pub mod Trim
pub mod Numbers
pub mod Items
pub mod State
pub mod Queue
pub mod Commit
pub mod Others
mod Examples
pub mod Move
pub mod Refused
