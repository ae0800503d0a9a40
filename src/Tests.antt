-- ===== src/Tests.antt =====
-- Runs of the definitions at concrete inputs, and the theorems at concrete inputs.
mod Trees
mod InsertionSort
mod TreeExamples
mod SortExamples
mod ClassifierExamples
mod PacketExamples
mod SplitExamples
mod ParserExamples
