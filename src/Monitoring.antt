-- ===== src/Monitoring.antt =====
-- `ORToolsMonitoring` of services/ortools_monitoring.py: the sliding window of metrics, the rotation
-- of the current window, and the alerts.
pub mod State
pub mod Alerts
pub mod Windows
pub mod Summary
pub mod Reports
mod Frame
pub mod Counting
pub mod Rotation
pub mod Percentile
pub mod AlertState
pub mod AlertRates
pub mod TimeAlerts
pub mod Recording
