-- ===== src/Tests.antt =====
-- Runs of the model on small inputs, and each theorem at an input that meets its hypotheses.
mod StackRuns
mod AllocatorRuns
mod SchedularRuns
mod CalculatorRuns
mod TaskRuns
mod TreeRuns
mod ThreadRuns
mod VtableRuns
mod LocalsRuns
mod OwnedRuns
mod UnwindingRuns
mod CompletionRuns
mod BenchRuns
