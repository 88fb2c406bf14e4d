-- ===== src/Client.antt =====
-- The client's side: src/client_session.cpp and src/client.cpp.
pub mod SendFile
pub mod ReceiveObject
pub mod Session
pub mod Writer
pub mod Connect
pub mod Handler
