-- ===== src/Providers/Web3/Kept.antt =====
-- What lasts of the connection to the wallet.
use knowtfolio.Base.{
  String, Option, true, List, ◌∷◌, ◌++◌, All, All-append, All-left, All-right, ◌≡◌, refl, arith,
}
use knowtfolio.Apis.Request.{Request, Reply}
use knowtfolio.React.World.{World, fresh, mounted, settle}
use knowtfolio.React.World.History.{History, begun, raised, answered}
use knowtfolio.React.World.Frame.{Only, Later, Later-of_Only, settle-All_Only, settle-keeps}
use knowtfolio.React.World.Respects.{Respects, respects_rules, Respects-update, Respects-Later}
use knowtfolio.React.Program.{Async, call, ◌>>=◌}
use knowtfolio.Providers.Web3.{
  Web3Context, Event, connect, install, wallet_raised, accounts_changed, chain_changed,
  connect_metamask, initialize, on_wallet_event, handle, initial, reload_page, web3_provider,
}

-- A connected context can connect again.
abbrev pub IsUsable : Web3Context → Type 0
IsUsable s = s.is_connected_to_metamask ≡ true → s.has_connect_metamask ≡ true

-- A connection is not given up, and stays usable.
record Advances (s t : Web3Context) : Type 0 where
  pub connected : s.is_connected_to_metamask ≡ true → t.is_connected_to_metamask ≡ true
  pub connects : s.has_connect_metamask ≡ true → t.has_connect_metamask ≡ true
  pub usable : IsUsable s → IsUsable t

connected-Advances :
    (account : Option String) (s : Web3Context)
    → Advances s
        (record { is_connected_to_metamask = true; account = account; has_connect_metamask = true })
connected-Advances account s = record {
  connected = λ h. refl;
  connects = λ h. refl;
  usable = λ h k. refl;
}

found-Advances : (s : Web3Context) → Advances s (record s { has_connect_metamask = true })
found-Advances s = record { connected = λ h. h; connects = λ h. refl; usable = λ h k. refl }

ruleset advance_rules = (respects_rules, Respects-update, connected-Advances, found-Advances)

connect-Advances : Respects Advances connect_metamask
unfolding connect_metamask
connect-Advances = search advance_rules depth 9

initialize-Advances : Respects Advances initialize
unfolding initialize
initialize-Advances = search (advance_rules, connect-Advances) depth 9

-- What the reloaded page leaves waiting.
reload-Later : Later Advances reload_page
unfolding reload_page ◌>>=◌
reload-Later = Respects-Later initialize-Advances

handle-Later : (e : Event) (s : Web3Context) → Later Advances (handle e s)
unfolding handle on_wallet_event
handle-Later connect s = Respects-Later connect-Advances
handle-Later install s = tt
handle-Later (wallet_raised accounts_changed) s = reload-Later
handle-Later (wallet_raised chain_changed) s = reload-Later

-- An event of the page itself, by which it is not loaded again.
abbrev pub IsOnPage : Event → Type 0
IsOnPage (wallet_raised e) = ⊥
IsOnPage _ = Unit

handle-Advances : (e : Event) (s : Web3Context) → IsOnPage e → Only Advances (handle e s)
unfolding handle
handle-Advances connect s h = connect-Advances.only
handle-Advances install s h = tt
handle-Advances (wallet_raised e) s h = elim h [ ]

mounted-IsUsable : IsUsable (mounted web3_provider).state
unfolding settle initialize ◌>>=◌
mounted-IsUsable h = ground (arith, h)

-- The context after a reload.
reloaded-IsUsable :
    (e : Event) (w : World Web3Context)
    → IsUsable w.state
    → IsUsable (settle (handle e w.state) w).state
unfolding settle handle on_wallet_event reload_page initialize connect_metamask ◌>>=◌
reloaded-IsUsable connect w u = u
reloaded-IsUsable install w u = u
reloaded-IsUsable (wallet_raised accounts_changed) w u = λ h. ground (arith, h)
reloaded-IsUsable (wallet_raised chain_changed) w u = λ h. ground (arith, h)

-- The context is usable, and whatever waits keeps the connection.
record Held (w : World Web3Context) : Type 0 where
  pub is_usable : IsUsable w.state
  pub waiting : All (Only Advances) w.tasks

open_tasks :
    (u : World Web3Context) (before after : List (Async Web3Context Unit)) (q : Request)
    (k : Reply q → Async Web3Context Unit)
    → u.tasks ≡ before ++ call q k ∷ after
    → All (Only Advances) u.tasks
    → All (Only Advances) (before ++ after) × ((a : Reply q) → Only Advances (k a))
open_tasks u before after q k at h =
    let split : All (Only Advances) (before ++ call q k ∷ after) = rw at at h in
    let rest = All-right (Only Advances) before (call q k ∷ after) split in
    (
      All-append (Only Advances) before after
          (All-left (Only Advances) before (call q k ∷ after) split) rest.1,
      rest.0,
    )

History-waiting :
    {w v : World Web3Context} {es : List Event}
    → History web3_provider w es v
    → All (Only Advances) w.tasks
    → All (Only Advances) v.tasks
History-waiting begun h = h
History-waiting (raised {u} e path o) h =
    settle-All_Only Advances (handle e u.state) u (handle-Later e u.state) (History-waiting path h)
History-waiting (answered {u} before after q k a path at) h =
    let (rest, fine) = open_tasks u before after q k at (History-waiting path h) in
    settle-All_Only Advances (k a) _ (Later-of_Only Advances (k a) (fine a)) rest

mounted-waiting : All (Only Advances) (mounted web3_provider).tasks
mounted-waiting =
    settle-All_Only Advances initialize (fresh initial) (Respects-Later initialize-Advances) tt

History-IsUsable :
    {w : World Web3Context} {es : List Event}
    → History web3_provider (mounted web3_provider) es w
    → IsUsable w.state
History-IsUsable begun = mounted-IsUsable
History-IsUsable (raised {u} e path o) = reloaded-IsUsable e u (History-IsUsable path)
History-IsUsable (answered {u} before after q k a path at) =
    let (rest, fine) = open_tasks u before after q k at (History-waiting path mounted-waiting) in
    settle-keeps Advances IsUsable (λ s t r. r.usable) (k a) _ (fine a) (History-IsUsable path)

module _ (P : Web3Context → Type 0) (carry : (s t : Web3Context) → Advances s t → P s → P t) where
  unreloaded :
      {w v : World Web3Context} {es : List Event}
      → All (Only Advances) w.tasks
      → History web3_provider w es v
      → All IsOnPage es
      → P w.state
      → P v.state
  unreloaded h begun on p = p
  unreloaded h (raised {u} e path o) on p =
      settle-keeps Advances P carry (handle e u.state) u (handle-Advances e u.state on.0)
        (unreloaded h path on.1 p)
  unreloaded h (answered {u} before after q k a path at) on p =
      let (rest, fine) = open_tasks u before after q k at (History-waiting path h) in
      settle-keeps Advances P carry (k a) _ (fine a) (unreloaded h path on p)

-- Where the wallet's events load the page anew, and from any moment after the opening on: as long
-- as the wallet raises none, whatever the user does and in any order of the answers, a wallet that
-- is connected stays so and one that was found stays so. At any moment, after such events too, a
-- wallet that is connected was found.
pub connection_kept :
    {earlier es : List Event} {w v : World Web3Context}
    → History web3_provider (mounted web3_provider) earlier w
    → History web3_provider w es v
    → All IsOnPage es
    → (w.state.is_connected_to_metamask ≡ true → v.state.is_connected_to_metamask ≡ true)
      × (w.state.has_connect_metamask ≡ true → v.state.has_connect_metamask ≡ true)
      × IsUsable w.state
connection_kept before after on =
    let waiting = History-waiting before mounted-waiting in
    (
      unreloaded (λ s. s.is_connected_to_metamask ≡ true) (λ s t r. r.connected) waiting after on,
      unreloaded (λ s. s.has_connect_metamask ≡ true) (λ s t r. r.connects) waiting after on,
      History-IsUsable before,
    )
