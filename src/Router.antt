-- ===== src/Router.antt =====
-- internal/router/router.go: the seats of a route, put in order and picked from by a strategy.
pub mod Presets
pub mod Selector
pub mod Pool
pub mod Pick
pub mod Status
