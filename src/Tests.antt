-- ===== src/Tests.antt =====
-- Small inputs, and what the theorems say at them.
mod World
mod Access
mod Accounts
mod Writing
mod SignIn
mod Cluster
mod Requests
mod Files
mod Images
mod Changes
mod Starting
mod Workloads
mod Auditing
mod Configuring
mod Pipelines
