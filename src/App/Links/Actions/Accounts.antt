-- ===== src/App/Links/Actions/Accounts.antt =====
-- Where the handlers of the header and of the account forms lead.
use knowtfolio.Base.{ℕ, All, String, Option, none, some}
use knowtfolio.Apis.Request.{Outcome, JsError, ImageForm}
use knowtfolio.React.World.Does.{Does, does_rules, run-Does}
use knowtfolio.Providers.Auth.{AuthContext}
use knowtfolio.Providers.Web3.{Web3Context}
use knowtfolio.Header
use knowtfolio.Forms.SignUp
use knowtfolio.Forms.SignIn
use knowtfolio.Forms.ResetPassword
use knowtfolio.Forms.RetryConfirmation
use knowtfolio.Forms.RegisterWallet
use knowtfolio.Forms.UpdatePassword
use knowtfolio.Forms.UpdateProfile
use knowtfolio.App.Links.{LeadsToPage, IsSegment, opened}
use knowtfolio.App.Links.Silent.{silent}
use knowtfolio.App.Links.Routed.{routed_rules}

pub ruleset leads_rules = (does_rules, silent, routed_rules)

pub header-Does :
    (e : Header.Event) → All IsSegment (opened e) → Does {S = Unit} LeadsToPage (Header.handle e)
unfolding Header.handle
header-Does Header.open_top h = search leads_rules
header-Does (Header.open_account name) (h, rest) = search leads_rules
header-Does Header.open_sign_up h = search leads_rules
header-Does Header.open_sign_in h = search leads_rules
header-Does Header.open_new_article h = search leads_rules
header-Does Header.open_search h = search leads_rules

pub sign_up-Does : (e : SignUp.Event) (s : SignUp.State) → Does LeadsToPage (SignUp.handle e s)
unfolding SignUp.handle SignUp.change SignUp.validate_effect SignUp.submit SignUp.verify
    SignUp.confirm_code SignUp.sign_in_after
sign_up-Does (SignUp.change_form name content) s = search leads_rules depth 14 fits 4000
sign_up-Does SignUp.submit_form s = search leads_rules depth 14 fits 4000
sign_up-Does (SignUp.change_code_input content) s = search leads_rules
sign_up-Does SignUp.verify_code s = search leads_rules depth 14 fits 4000

pub sign_in-Does :
    (rounds : ℕ) (context : Web3Context) (e : SignIn.Event) (s : SignIn.State)
    → IsSegment s.username
    → Does {S = SignIn.State} LeadsToPage (SignIn.handle rounds context e s)
unfolding SignIn.handle SignIn.sign_in_with_password SignIn.sign_in_with_wallet
sign_in-Does rounds context (SignIn.change_form name content) s h =
    search leads_rules depth 14 fits 4000
sign_in-Does rounds context SignIn.submit_password s h = search leads_rules depth 14 fits 4000
sign_in-Does rounds context SignIn.submit_wallet s h = search leads_rules depth 14 fits 4000
sign_in-Does rounds context SignIn.connect s h = search leads_rules depth 14 fits 4000
sign_in-Does rounds context SignIn.install s h = search leads_rules depth 14 fits 4000

pub reset_password-Does :
    (e : ResetPassword.Event) (s : ResetPassword.State)
    → Does {S = ResetPassword.State} LeadsToPage (ResetPassword.handle e s)
unfolding ResetPassword.handle ResetPassword.change ResetPassword.validate_effect
    ResetPassword.send_code ResetPassword.submit
reset_password-Does (ResetPassword.change_form name content) s =
    search leads_rules depth 14 fits 4000
reset_password-Does ResetPassword.submit_username s = search leads_rules depth 14 fits 4000
reset_password-Does ResetPassword.submit_password_reset_form s =
    search leads_rules depth 14 fits 4000

pub retry_confirmation-Does :
    (e : RetryConfirmation.Event) (s : RetryConfirmation.State)
    → Does {S = RetryConfirmation.State} LeadsToPage (RetryConfirmation.handle e s)
unfolding RetryConfirmation.handle RetryConfirmation.resend RetryConfirmation.verify
retry_confirmation-Does (RetryConfirmation.change_username content) s =
    search leads_rules depth 14 fits 4000
retry_confirmation-Does RetryConfirmation.submit_username s = search leads_rules depth 14 fits 4000
retry_confirmation-Does (RetryConfirmation.change_code content) s =
    search leads_rules depth 14 fits 4000
retry_confirmation-Does RetryConfirmation.verify_code s = search leads_rules depth 14 fits 4000

pub register_wallet-Does :
    (auth : AuthContext) (context : Web3Context) (e : RegisterWallet.Event)
    → IsSegment auth.user
    → Does {S = Unit} LeadsToPage (RegisterWallet.handle auth context e)
unfolding RegisterWallet.handle RegisterWallet.register_wallet_address
register_wallet-Does auth context RegisterWallet.register h = search leads_rules depth 14 fits 4000
register_wallet-Does auth context RegisterWallet.cancel h = search leads_rules depth 14 fits 4000
register_wallet-Does auth context RegisterWallet.connect h = search leads_rules depth 14 fits 4000
register_wallet-Does auth context RegisterWallet.install h = search leads_rules depth 14 fits 4000

password_changed-Does :
    (err : Option JsError)
    → Does {S = UpdatePassword.State} LeadsToPage (UpdatePassword.password_changed err)
password_changed-Does none = search leads_rules
password_changed-Does (some err) = search leads_rules

pub update_password-Does :
    (name : String) (e : UpdatePassword.Event) (s : UpdatePassword.State)
    → IsSegment name
    → Does {S = UpdatePassword.State} LeadsToPage (UpdatePassword.handle name e s)
unfolding UpdatePassword.handle UpdatePassword.change UpdatePassword.validate_effect
    UpdatePassword.submit
update_password-Does name (UpdatePassword.change_form field content) s h =
    search leads_rules depth 14 fits 4000
update_password-Does name UpdatePassword.submit_form s h =
    search (leads_rules, password_changed-Does) depth 14 fits 4000
update_password-Does name UpdatePassword.cancel s h = search leads_rules depth 14 fits 4000

upload_image-Does :
    (encode_uri : String → Outcome String) (auth : AuthContext) (form : UpdateProfile.ProfileForm)
    (chosen : Option ImageForm)
    → Does LeadsToPage (UpdateProfile.upload_image encode_uri auth form chosen)
unfolding UpdateProfile.upload_image
upload_image-Does encode_uri auth form none = search leads_rules
upload_image-Does encode_uri auth form (some image) = search leads_rules depth 14 fits 4000

attributes_updated-Does :
    (err : Option JsError) → Does LeadsToPage (UpdateProfile.attributes_updated err)
attributes_updated-Does none = search leads_rules
attributes_updated-Does (some err) = search leads_rules

pub update_profile-Does :
    (encode_uri : String → Outcome String) (auth : AuthContext) (e : UpdateProfile.Event)
    (s : UpdateProfile.State)
    → IsSegment auth.user
    → Does {S = UpdateProfile.State} LeadsToPage (UpdateProfile.handle encode_uri auth e s)
unfolding UpdateProfile.handle UpdateProfile.handle_set_image UpdateProfile.submit
update_profile-Does encode_uri auth (UpdateProfile.change_form name content) s h =
    search leads_rules depth 14 fits 4000
update_profile-Does encode_uri auth (UpdateProfile.set_image none) s h =
    search leads_rules depth 14 fits 4000
update_profile-Does encode_uri auth (UpdateProfile.set_image (some chosen)) s h =
    search leads_rules depth 14 fits 4000
update_profile-Does encode_uri auth UpdateProfile.submit_form s h =
    search (leads_rules, upload_image-Does, attributes_updated-Does) depth 14 fits 4000
update_profile-Does encode_uri auth UpdateProfile.cancel s h = search leads_rules depth 14 fits 4000
