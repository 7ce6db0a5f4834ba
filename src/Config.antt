-- ===== src/Config.antt =====
-- dsn.go, props.go and tls_config.go: what a connection is configured with.
pub mod Properties
pub mod Dsn
