-- ===== src/Server.antt =====
-- The server's side: src/client_view.cpp, src/server_session.cpp and the parts that they use.
pub mod Files
pub mod Upload
pub mod Arguments
pub mod Session
pub mod View
pub mod Object
pub mod Writer
pub mod Connect
