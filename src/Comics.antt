-- ===== src/Comics.antt =====
-- Comics, their issues and their readers: src/comic/ and src/comic-issue/.
pub mod Model
pub mod Readers
pub mod Status
pub mod Episodes
mod Tests
