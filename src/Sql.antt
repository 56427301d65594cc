-- ===== src/Sql.antt =====
-- src/sql: the lexical framing of SQL text and what is read off its leading keywords.
pub mod Lexer
pub mod Keywords
pub mod Stream
pub mod Catalog
pub mod Queries
