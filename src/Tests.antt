-- ===== src/Tests.antt =====
-- The theorems at concrete inputs.
mod Fixtures
mod SampleCodec
mod Queue
mod Service
mod Workers
mod Runtime
mod Edges
mod Coordinator
mod Boundary
