-- ===== src/Demo/Tests.antt =====
-- Tests of the dashboard's model, and the theorems at concrete inputs.
mod Dashboard
mod Forms
mod Session
