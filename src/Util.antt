-- ===== src/Util.antt =====
-- src/util
pub mod Pair
pub mod Str
pub mod MsgArray
pub mod TopicDb
pub mod Stats
pub mod File
pub mod AddrList
