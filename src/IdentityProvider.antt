-- ===== src/IdentityProvider.antt =====
-- The htpasswd identity provider, provider/identityprovider.
pub mod Users
pub mod Htpasswd
mod Tests
