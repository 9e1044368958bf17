-- ===== src/Tests/Witnesses.antt =====
-- The theorems at concrete inputs.
mod AuthCases
mod ClientCases
mod CsvCases
mod ObjectCases
mod PageCases
mod PreviewCases
mod ProxyCases
mod ServerCases
mod ShellCases
mod StoreCases
mod ThemeCases
mod ViewCases
