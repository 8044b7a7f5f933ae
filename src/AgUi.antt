-- ===== src/AgUi.antt =====
-- The AG-UI kit of the browser, ui/ag-ui.
pub mod Contract
pub mod Messages
pub mod Thread
pub mod Requests
pub mod Connect
