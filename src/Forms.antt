-- ===== src/Forms.antt =====
-- client/src/components/organisms/forms: the forms, a module each.
pub mod Validation
pub mod SignUp
pub mod ResetPassword
pub mod UpdatePassword
pub mod SignIn
pub mod UpdateProfile
pub mod RetryConfirmation
pub mod RegisterWallet
pub mod NewArticle
pub mod EditArticle
