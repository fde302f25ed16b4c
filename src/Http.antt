-- ===== src/Http.antt =====
-- A request of the HTTP server: its context, the guards of src/app.module.ts in their order, and the
-- controllers' methods behind them.
pub mod Context
pub mod Subdomain
pub mod Pipeline
pub mod Protection
pub mod RolesController
pub mod UsersController
pub mod TenancyController
pub mod AuthController
pub mod Administration
pub mod Anonymous
pub mod Filters
pub mod QueueController
