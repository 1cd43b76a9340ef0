-- ===== src/Ui.antt =====
-- The user interface of a company: cmd/company/wire.go and company_ui.go, and the routes and
-- events of ui/handler.go.
pub mod Adapter
pub mod Company
pub mod Routing
pub mod Verdicts
pub mod Routes
pub mod Events
pub mod Served
