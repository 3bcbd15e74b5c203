-- ===== src/FileMask.antt =====
-- 19_file_mask/task19.c: finding the files that a mask names.
--
-- A C string is the bytes before its 0, a pointer into it the rest from there. `Matching` has the
-- loop that matches a name, `Tokens` what a mask says, `Search` the walk over directories.
pub mod Matching
pub mod Tokens
pub mod Decides
pub mod Search
pub mod Answers
