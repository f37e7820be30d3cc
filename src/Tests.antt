-- ===== src/Tests.antt =====
-- The theorems at concrete inputs, where their hypotheses hold.
pub mod CacheCases
pub mod ReadCases
pub mod ScsiCases
pub mod TransferCases
pub mod LimitCases
pub mod SendingCases
pub mod WriterCases
pub mod DataInCases
pub mod ControlCases
pub mod LoginCases
pub mod BufferCases
pub mod VolumeCases
pub mod DispatchCases
pub mod TaggedCases
pub mod AioCases
