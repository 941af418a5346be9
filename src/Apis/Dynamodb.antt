-- ===== src/Apis/Dynamodb.antt =====
-- client/src/apis/dynamodb.ts: reads of the table `knowtfolio`. A client is the token that it was
-- made with; the message of the error leaves out the dumps of the query and of its answer.
pub mod Nonce
use knowtfolio.Base.{String, Option, none, some, truthy, if◌then◌else◌}
use knowtfolio.Apis.Request.{error, exception, get_item}
use knowtfolio.React.Program.{Async, ret, throw, ask, await_promise, ◌>>=◌}

module _ {S : Type 0} where
  unfoldable pub fetch_wallet_address : String → String → Async S (Option String)
  fetch_wallet_address client user_id = do
    outcome ← ask (get_item client "user_id_to_wallet_address" user_id)
    await_promise outcome

  -- An empty value counts as a missing one.
  abbrev pub found_nonce : Option String → Async S String
  found_nonce none = throw (exception (error "value not found"))
  found_nonce (some value) =
      if truthy value then ret value else throw (exception (error "value not found"))

  unfoldable pub fetch_nonce : String → String → Async S String
  fetch_nonce client user_id = do
    outcome ← ask (get_item client "user_id_to_nonce" user_id)
    found ← await_promise outcome
    found_nonce found
