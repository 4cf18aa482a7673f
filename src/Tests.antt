-- ===== src/Tests.antt =====
-- Runs of the definitions at concrete inputs, and instances of the theorems.
mod Digits
mod Router
mod Splicing
mod Text
mod Edifact
mod X12
mod X12Message
mod Table
mod Columns
mod EdifactMessage
mod Explain
mod Nearmiss
mod Snx
mod Dispatcher
mod SizeType
