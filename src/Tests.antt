-- ===== src/Tests.antt =====
-- Runs of the definitions on inputs of the unit tests, and theorems applied at concrete inputs.
mod ClientRuns
mod CsvRuns
mod PreviewRuns
mod Witnesses
