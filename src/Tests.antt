-- ===== src/Tests.antt =====
-- Runs of the definitions on concrete inputs, and the theorems at inputs where their hypotheses hold.
mod Running
mod Fleet
mod Safety
mod Rag
mod Sql
mod Prompt
mod Pipeline
mod Executor
mod Postgres
mod Llm
mod Client
mod Cli
mod Whole
mod Redact
mod Interleaving
