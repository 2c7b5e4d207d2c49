-- ===== src/Api.antt =====
-- pkg/lib/api: the requests that the test cases send, and the responses that they compare.
pub mod Request
pub mod Response
pub mod Formats
pub mod PreProcess
pub mod Policies
