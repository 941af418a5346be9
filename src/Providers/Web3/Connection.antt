-- ===== src/Providers/Web3/Connection.antt =====
-- When the wallet is connected.
use knowtfolio.Base.{Option, true, some, ◌≡◌, ◌↔◌, arith, List, String}
use knowtfolio.Apis.Request.{detect_provider, request_accounts, resolved}
use knowtfolio.React.Program.{◌>>=◌}
use knowtfolio.React.Run.{Environment, run, Has, sent}
use knowtfolio.Providers.Web3.{initial, first, connect_metamask, initialize}

-- After the effect of the provider the wallet counts as connected, with an account, exactly when it
-- was found and gave its accounts; the account is the first of these.
initialize_connects_iff :
    (env : Environment) (account : Option String)
    → ((run env initialize initial).state ≡ record {
      is_connected_to_metamask = true;
      account = account;
      has_connect_metamask = true;
    })
      ↔ ((env 0 detect_provider ≡ some (resolved true))
          × (accounts : List String) × (env 1 request_accounts ≡ some (resolved accounts))
          × (first accounts ≡ account))
unfolding run initialize connect_metamask ◌>>=◌
initialize_connects_iff env account = ground arith

-- The accounts are asked for exactly when the wallet was found, and only then can the user connect.
initialize_asks_iff :
    (env : Environment)
    → (Has (sent request_accounts) (run env initialize initial).trace
        ↔ (env 0 detect_provider ≡ some (resolved true)))
      × (((run env initialize initial).state.has_connect_metamask ≡ true)
          ↔ (env 0 detect_provider ≡ some (resolved true)))
unfolding run initialize connect_metamask ◌>>=◌
initialize_asks_iff env = ground arith
