-- ===== src/Examples.antt =====
-- Small networks, packets and tables, and what the theorems say of them.
mod WireExamples
mod MessageExamples
mod ServerExamples
mod ClientExamples
mod TopologyExamples
mod DeployExamples
mod StoreExamples
mod CollectorExamples
mod ControlExamples
mod CliExamples
mod CallExamples
