-- ===== src/Providers.antt =====
-- client/src/components/organisms/providers: the contexts of the wallet and of the signed-in user.
pub mod Web3
pub mod Auth
