-- ===== src/App/Links/Endings/Accounts.antt =====
-- Whether the handlers of the header and of the account forms end once their calls are answered.
use knowtfolio.Base.{◌≢◌, refl, ℕ, String, Option, none, some}
use knowtfolio.Apis.Request.{Outcome, JsError, ImageForm}
use knowtfolio.React.Run.Settles.{Settles, settles_rules, IsObliging, IsSettled, run-Settles}
use knowtfolio.Providers.Auth.{AuthContext}
use knowtfolio.Providers.Web3.{Web3Context}
use knowtfolio.Header
use knowtfolio.Forms.SignUp
use knowtfolio.Forms.SignIn
use knowtfolio.Forms.ResetPassword
use knowtfolio.Forms.RetryConfirmation
use knowtfolio.Forms.RegisterWallet
use knowtfolio.Forms.UpdatePassword
use knowtfolio.Forms.UpdateProfile
use knowtfolio.App.Links.Answered.{answered}

pub ruleset ends_rules = (settles_rules, answered)

pub header-Settles : (e : Header.Event) → Settles {S = Unit} (Header.handle e)
unfolding Header.handle
header-Settles Header.open_top = search ends_rules
header-Settles (Header.open_account name) = search ends_rules
header-Settles Header.open_sign_up = search ends_rules
header-Settles Header.open_sign_in = search ends_rules
header-Settles Header.open_new_article = search ends_rules
header-Settles Header.open_search = search ends_rules

pub sign_up-Settles : (e : SignUp.Event) (s : SignUp.State) → Settles (SignUp.handle e s)
unfolding SignUp.handle SignUp.change SignUp.validate_effect SignUp.submit SignUp.verify
    SignUp.confirm_code SignUp.sign_in_after
sign_up-Settles (SignUp.change_form name content) s = search ends_rules depth 14 fits 4000
sign_up-Settles SignUp.submit_form s = search ends_rules depth 14 fits 4000
sign_up-Settles (SignUp.change_code_input content) s = search ends_rules
sign_up-Settles SignUp.verify_code s = search ends_rules depth 14 fits 4000

pub sign_in-Settles :
    (rounds : ℕ) (context : Web3Context) (e : SignIn.Event) (s : SignIn.State)
    → e ≢ SignIn.submit_wallet
    → Settles {S = SignIn.State} (SignIn.handle rounds context e s)
unfolding SignIn.handle SignIn.sign_in_with_password
sign_in-Settles rounds context (SignIn.change_form name content) s h =
    search ends_rules depth 14 fits 4000
sign_in-Settles rounds context SignIn.submit_password s h = search ends_rules depth 14 fits 4000
sign_in-Settles rounds context SignIn.submit_wallet s h = absurd (h refl)
sign_in-Settles rounds context SignIn.connect s h = search ends_rules depth 14 fits 4000
sign_in-Settles rounds context SignIn.install s h = search ends_rules depth 14 fits 4000

pub reset_password-Settles :
    (e : ResetPassword.Event) (s : ResetPassword.State)
    → Settles {S = ResetPassword.State} (ResetPassword.handle e s)
unfolding ResetPassword.handle ResetPassword.change ResetPassword.validate_effect
    ResetPassword.send_code ResetPassword.submit
reset_password-Settles (ResetPassword.change_form name content) s =
    search ends_rules depth 14 fits 4000
reset_password-Settles ResetPassword.submit_username s = search ends_rules depth 14 fits 4000
reset_password-Settles ResetPassword.submit_password_reset_form s =
    search ends_rules depth 14 fits 4000

pub retry_confirmation-Settles :
    (e : RetryConfirmation.Event) (s : RetryConfirmation.State)
    → Settles {S = RetryConfirmation.State} (RetryConfirmation.handle e s)
unfolding RetryConfirmation.handle RetryConfirmation.resend RetryConfirmation.verify
retry_confirmation-Settles (RetryConfirmation.change_username content) s =
    search ends_rules depth 14 fits 4000
retry_confirmation-Settles RetryConfirmation.submit_username s =
    search ends_rules depth 14 fits 4000
retry_confirmation-Settles (RetryConfirmation.change_code content) s =
    search ends_rules depth 14 fits 4000
retry_confirmation-Settles RetryConfirmation.verify_code s = search ends_rules depth 14 fits 4000

pub register_wallet-Settles :
    (auth : AuthContext) (context : Web3Context) (e : RegisterWallet.Event)
    → Settles {S = Unit} (RegisterWallet.handle auth context e)
unfolding RegisterWallet.handle RegisterWallet.register_wallet_address
register_wallet-Settles auth context RegisterWallet.register = search ends_rules depth 14 fits 4000
register_wallet-Settles auth context RegisterWallet.cancel = search ends_rules depth 14 fits 4000
register_wallet-Settles auth context RegisterWallet.connect = search ends_rules depth 14 fits 4000
register_wallet-Settles auth context RegisterWallet.install = search ends_rules depth 14 fits 4000

password_changed-Settles :
    (err : Option JsError)
    → Settles {S = UpdatePassword.State} (UpdatePassword.password_changed err)
password_changed-Settles none = search ends_rules
password_changed-Settles (some err) = search ends_rules

pub update_password-Settles :
    (name : String) (e : UpdatePassword.Event) (s : UpdatePassword.State)
    → Settles {S = UpdatePassword.State} (UpdatePassword.handle name e s)
unfolding UpdatePassword.handle UpdatePassword.change UpdatePassword.validate_effect
    UpdatePassword.submit
update_password-Settles name (UpdatePassword.change_form field content) s =
    search ends_rules depth 14 fits 4000
update_password-Settles name UpdatePassword.submit_form s =
    search (ends_rules, password_changed-Settles) depth 14 fits 4000
update_password-Settles name UpdatePassword.cancel s = search ends_rules depth 14 fits 4000

upload_image-Settles :
    (encode_uri : String → Outcome String) (auth : AuthContext) (form : UpdateProfile.ProfileForm)
    (chosen : Option ImageForm)
    → Settles (UpdateProfile.upload_image encode_uri auth form chosen)
unfolding UpdateProfile.upload_image
upload_image-Settles encode_uri auth form none = search ends_rules
upload_image-Settles encode_uri auth form (some image) = search ends_rules depth 14 fits 4000

attributes_updated-Settles : (err : Option JsError) → Settles (UpdateProfile.attributes_updated err)
attributes_updated-Settles none = search ends_rules
attributes_updated-Settles (some err) = search ends_rules

pub update_profile-Settles :
    (encode_uri : String → Outcome String) (auth : AuthContext) (e : UpdateProfile.Event)
    (s : UpdateProfile.State)
    → Settles {S = UpdateProfile.State} (UpdateProfile.handle encode_uri auth e s)
unfolding UpdateProfile.handle UpdateProfile.handle_set_image UpdateProfile.submit
update_profile-Settles encode_uri auth (UpdateProfile.change_form name content) s =
    search ends_rules depth 14 fits 4000
update_profile-Settles encode_uri auth (UpdateProfile.set_image none) s =
    search ends_rules depth 14 fits 4000
update_profile-Settles encode_uri auth (UpdateProfile.set_image (some chosen)) s =
    search ends_rules depth 14 fits 4000
update_profile-Settles encode_uri auth UpdateProfile.submit_form s =
    search (ends_rules, upload_image-Settles, attributes_updated-Settles) depth 14 fits 4000
update_profile-Settles encode_uri auth UpdateProfile.cancel s = search ends_rules depth 14 fits 4000
