-- ===== src/Link.antt =====
-- common/link_proto.c, common/link_session.c: the link between the two processors.
pub mod Frame
pub mod Pattern
pub mod Bus
pub mod Session
pub mod Serve
pub mod Operations
pub mod Exchange
