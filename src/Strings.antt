-- ===== src/Strings.antt =====
-- `StringUtility` of utils/string.h and utils/string.cpp, one module for each family of functions.
-- A `std::string` is the list of its bytes. A `char` is signed in the source; the tests on it are
-- written for the byte, which gives the same answers.
pub mod Chars
pub mod Trim
pub mod Numbers
pub mod Split
pub mod Replace
pub mod Substitute
pub mod Content
pub mod Wild
pub mod Patterns
mod Matches
mod Pages
mod Searches
mod Examples
