-- ===== src/Store.antt =====
-- src/db: the SQLite store. A table is the list of its rows; an AUTOINCREMENT id is one more than the
-- largest that its table ever gave. Each function takes the time that `_now()` reads.
pub mod Rows
pub mod Chats
pub mod Messages
pub mod Retention
