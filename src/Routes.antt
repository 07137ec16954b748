-- ===== src/Routes.antt =====
-- src/routes: the HTTP handlers.
pub mod Client
pub mod TokenForm
pub mod Grants
pub mod Token
pub mod Granted
pub mod Exchange
pub mod Steps
pub mod GrantSteps
pub mod TokenErrors
pub mod LoggedIn
pub mod LoginFlow
pub mod Rotation
pub mod Inactive
pub mod Authentication
pub mod Revoke
pub mod Introspect
pub mod Userinfo
pub mod EndSession
pub mod Admin
pub mod AdminGuard
pub mod Validate
pub mod Authorize
pub mod Authorization
pub mod Register
pub mod Answers
pub mod Logout
pub mod Answered
pub mod LoginPage
