-- ===== src/Oatproxy.antt =====
-- jacquard-oatproxy/src: the OAuth 2.1 proxy library.
pub mod Error
pub mod Session
pub mod Store
pub mod Crypto
pub mod Jwt
pub mod Token
pub mod Auth
pub mod Dpop
pub mod Config
pub mod Server
pub mod Builder
pub mod ClientAuthStore
