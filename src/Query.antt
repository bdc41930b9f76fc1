-- ===== src/Query.antt =====
-- pkg/query: the statements, their result sets, and the HTTP handler.
pub mod Run
pub mod Value
pub mod ResultSet
pub mod Ast
pub mod Service
pub mod Lexer
pub mod Utf8
pub mod Scanner
pub mod Parser
mod Tests
