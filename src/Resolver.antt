-- ===== src/Resolver.antt =====
-- The resolver (resolver/, internal/util/resolver/).
pub mod Cache
pub mod Servers
