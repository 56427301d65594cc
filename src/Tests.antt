-- ===== src/Tests.antt =====
mod Scanner
mod Session
mod Error
mod Target
mod Cli
mod Output
mod Catalog
mod Jsonl
mod Shell
mod Commands
mod Execution
mod Table
mod Dashboard
mod Selection
mod Script
mod Clusters
