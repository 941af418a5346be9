-- ===== src/Tests/Forms.antt =====
-- The shared validation and the sign-up's handlers at concrete inputs.
use knowtfolio.Base.{
  String, true, false, none, some, ◌≡◌, ◌↔◌, [], ◌∷◌, refl, arith, eq_iff, if◌then◌else◌, truthy?,
  ◌++◌, ◌==◌, List, Option,
}
use knowtfolio.Base.Dict.{Dict, lookup}
use knowtfolio.React.Program.{navigate}
use knowtfolio.React.Run.{run, Has, did}
use knowtfolio.React.World.{World, mounted}
use knowtfolio.React.World.Rely.{Trusted}
use knowtfolio.Apis.Request.{FieldError, validate_form}
use knowtfolio.Forms.Validation.{judge_form, find_error, message_of}
use knowtfolio.Forms.Validation.Submission.{Passes, can_submit_form_iff}
use knowtfolio.Forms.Validation.Messages.{lookup-field_messages}
use knowtfolio.Forms.SignUp.{State, submit, verify, sign_up_form}
use knowtfolio.Forms.SignUp.Handlers.{SignsUp, Confirms, SignsIn, submit_iff, verify_navigates_iff}
use knowtfolio.Forms.SignUp.Reachable.{Accepts, filled_form, sign_up_reachable}
use knowtfolio.Forms.SignUp.Races.{Judges, body, idle, verdict, stale_verdict}
use knowtfolio.Tests.Servers.{granting, alice_taken}
use knowtfolio.Tests.SignUp.{filled}

abbrev login_form : Dict String
login_form = ("username", "alice") ∷ ("password", "Pa5$word") ∷ []

can_submit_form_iff_example :
    ((judge_form login_form alice_taken).can_submit_form ≡ true) ↔ Passes login_form alice_taken
can_submit_form_iff_example = can_submit_form_iff login_form alice_taken

lookup-field_messages_example :
    lookup "username" (judge_form login_form alice_taken).field_messages ≡ (
      if truthy? (lookup "username" login_form)
      then some (message_of login_form "username" (find_error "username" alice_taken))
      else none)
lookup-field_messages_example = lookup-field_messages login_form alice_taken "username"

-- The form is filled in and found valid.
abbrev ready : State
ready = record {
  form = filled;
  field_messages = [];
  can_submit_form = true;
  has_signed_up = false;
  code = "123456";
}

submit_iff_example :
    ((run granting (submit filled) ready).state.has_signed_up ≡ true) ↔ SignsUp granting filled
submit_iff_example = submit_iff granting ready refl

verify_navigates_iff_example :
    Has (did (navigate "/settings/wallet" true)) (run granting (verify filled "123456") ready).trace
    ↔ (Confirms granting filled "123456" × SignsIn granting filled "123456")
verify_navigates_iff_example = verify_navigates_iff granting filled "123456" ready

unfoldable find_for : Option String → List FieldError
find_for none = alice_taken
find_for (some password) = if password == "Pa5$word" then [] else alice_taken

-- The server finds the username taken unless the password is the first one.
unfoldable find : Dict String → List FieldError
find entries = find_for (lookup "password" entries)

stale_verdict_example :
    (w : World State) × Trusted sign_up_form (Judges find) (idle ready [] []) w
    × (w.state.form ≡ record filled { password = "b" })
    × (w.tasks ≡ [])
    × (w.state.can_submit_form ≡ verdict ready "Pa5$word" (find (body ready "Pa5$word")))
    × (w.sent
        ≡ ([] ++ validate_form "/api/validate_sign_up_form" (body ready "Pa5$word") ∷ [])
          ++ validate_form "/api/validate_sign_up_form" (body ready "b") ∷ [])
stale_verdict_example = stale_verdict ready [] [] refl find "Pa5$word" "b"

sign_up_reachable_example :
    (w : World State) × Trusted sign_up_form Accepts (mounted sign_up_form) w
    × (w.state.has_signed_up ≡ true)
    × (w.state.form ≡ filled_form "alice" "a@b.c" "Pa5$word")
    × (w.tasks ≡ [])
sign_up_reachable_example =
    sign_up_reachable "alice" "a@b.c" "Pa5$word" "alice" (λ e. ground (arith, eq_iff "alice" ""))
      (λ e. ground (arith, eq_iff "a@b.c" "")) (λ e. ground (arith, eq_iff "Pa5$word" ""))
