-- ===== src/Http.antt =====
-- HTTP messages: `CHttpRequest` and `CHttpResponse` of net/http_message.h and net/http_message.cc.
pub mod Wire
pub mod Walk
pub mod Request
pub mod Response
pub mod Fields
pub mod Message
pub mod RoundTrip
pub mod Ends
pub mod Reply
mod Examples
