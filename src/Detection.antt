-- ===== src/Detection.antt =====
-- src/detection_engine.py and the modules that it calls.
pub mod Privacy
pub mod Validate
pub mod Alerts
pub mod Signatures
pub mod Rules
pub mod Detect
pub mod Timeline
pub mod Beaconing
pub mod Incidents
pub mod Risk
pub mod Views
pub mod Siem
pub mod Analyze
