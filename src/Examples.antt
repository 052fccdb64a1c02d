-- ===== src/Examples.antt =====
-- Runs of the definitions, and each theorem at an input.
mod Dates
mod Triggers
mod Lines
mod Omits
mod Sorting
mod Computed
mod Expressions
mod Parsing
