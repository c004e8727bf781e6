-- ===== src/Greeter.antt =====
-- The messages of web/src/generated/greeter.ts.
pub mod EchoRequest
pub mod EchoReply
