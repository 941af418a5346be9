-- ===== src/Tests/Pages.antt =====
-- The profile form and the pages that choose their content, at concrete inputs.
use knowtfolio.Base.{String, Bool, true, none, some, ◌≡◌, ◌≢◌, refl, truthy_iff}
use knowtfolio.Apis.Request.{ImageForm, Outcome, resolved, rejected, put_object}
use knowtfolio.React.Run.{Environment, run}
use knowtfolio.Forms.UpdateProfile.{State}
use knowtfolio.Pages.EditArticle
use knowtfolio.Pages.EditArticle.{content, load_owner, go_to, edit_article_form}
use knowtfolio.Pages.EditArticle.Owner.{stale_owner}
use knowtfolio.Tests.Servers.{granting, refusal}

abbrev any_url : String → Bool
any_url s = true

abbrev as_is : String → Outcome String
as_is uri = resolved uri

abbrev picture : ImageForm
picture = record { blob = "bytes"; url = "data:"; name = "me.png" }

abbrev profile : State
profile = record {
  profile_form = record { website = some "https://a.b"; description = some "hello" };
  image_form = some picture;
}

-- The store of images is not reached.
abbrev storeless : Environment
storeless n (put_object id_token key blob) = some (rejected refusal)
storeless n q = granting n q

a1_is_an_id : ◌≢◌ {A = String} "a1" ""
a1_is_an_id = (truthy_iff "a1").0 refl

-- Nothing is answered.
abbrev silent : Environment
silent n q = none

abbrev editing : EditArticle.State
editing = record { article_id = some "a0"; owner_id_of_article = some "alice" }

editing_a0 : content "alice" editing ≡ edit_article_form "a0"
unfolding content
editing_a0 = refl

stale_owner_example :
    content "alice" (run silent (go_to (some "a1")) editing).state ≡ edit_article_form "a1"
stale_owner_example = stale_owner silent "alice" "a0" "a1" editing editing_a0 a1_is_an_id refl
