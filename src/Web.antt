-- ===== src/Web.antt =====
-- The web side: http_server.cpp, and the two consoles (console.cpp), CGI programs that show in a page what
-- remote servers answer to the lines of a file.
pub mod Buffer
pub mod Html
pub mod Http
pub mod Console
pub mod Request
pub mod Page
pub mod Query
mod Tests
