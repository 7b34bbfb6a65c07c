-- ===== src/Session.antt =====
-- src/websocket_session.cpp and include/websocket_session.hpp: one client's connection. State holds
-- the class, Queue the outgoing frames and their writer, Commands and Messages what the client asks for.
pub mod State
pub mod Queue
pub mod Commands
pub mod Messages
pub mod Access
pub mod Keeps
pub mod Reading
pub mod Unkeyed
pub mod Rights
pub mod Anonymous
pub mod Admission
pub mod Farewell
pub mod Answers
pub mod MessageExamples
pub mod Bounded
pub mod Latest
pub mod Enqueued
pub mod Order
pub mod Drain
pub mod Examples
