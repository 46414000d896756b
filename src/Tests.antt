-- ===== src/Tests.antt =====
-- Runs on concrete inputs, and the theorems at inputs that meet their hypotheses.
mod Shipping
mod Database
mod Tasks
mod Jobs
mod Runs
mod Detection
mod Analysis
mod Times
mod Capture
mod Access
mod Siem
mod Inspector
