-- ===== src/Modules.antt =====
-- src/modules: the modules of the pipeline.
pub mod Pipeline
pub mod CircuitBreaker
pub mod Cache
pub mod RateLimiter
pub mod LoadBalancer
pub mod Helpers
pub mod UrlRewriter
pub mod HealthCheck
pub mod RequestId
pub mod Compression
pub mod ActiveHealth
pub mod ProxyCore
pub mod AdminApi
pub mod Instances
pub mod Register
pub mod Defaults
