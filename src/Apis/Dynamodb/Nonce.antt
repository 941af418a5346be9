-- ===== src/Apis/Dynamodb/Nonce.antt =====
-- The nonce that was read does nothing but fail or go on.
use knowtfolio.Base.{String, Option, none, some}
use knowtfolio.Apis.Dynamodb.{found_nonce}
use knowtfolio.React.Run.{Event}
use knowtfolio.React.World.Does.{Does, does_rules}

pub Does-found_nonce :
    {S : Type 0} {P : Event → Type 0} (found : Option String) → Does {S = S} P (found_nonce found)
Does-found_nonce none = search does_rules
Does-found_nonce (some nonce) = search does_rules
