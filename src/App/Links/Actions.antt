-- ===== src/App/Links/Actions.antt =====
-- Where the handlers lead, for the tables and the forms of articles.
pub mod Accounts
use knowtfolio.Base.{Option, none, some}
use knowtfolio.Apis.Request.{Outcome, JsError, ImageForm}
use knowtfolio.Apis.Number.{Number}
use knowtfolio.React.World.Does.{Does, does_rules}
use knowtfolio.Cards
use knowtfolio.Header
use knowtfolio.Forms.SignUp
use knowtfolio.Forms.SignIn
use knowtfolio.Forms.ResetPassword
use knowtfolio.Forms.RetryConfirmation
use knowtfolio.Forms.RegisterWallet
use knowtfolio.Forms.UpdatePassword
use knowtfolio.Forms.UpdateProfile
use knowtfolio.Forms.NewArticle
use knowtfolio.Forms.EditArticle
use knowtfolio.Tables.AccountInfo
use knowtfolio.Tables.SearchResult
use knowtfolio.Tables.OwnedArticles
use knowtfolio.App.Links.Silent.{silent}
use knowtfolio.App.Links.Routed.{routed_rules}
