-- ===== src/Json.antt =====
-- `Json` of utils/json.h and utils/json.cpp. The text that is read and the text that is written are
-- bytes; what the C library does, `atoi`, `atof` and the formats of numbers, is a parameter.
pub mod Value
pub mod Escape
pub mod Token
pub mod Parse
pub mod Print
pub mod EscapeLaws
pub mod Tokens
pub mod Steps
pub mod Shape
pub mod RoundTrip
pub mod Ends
mod Examples
