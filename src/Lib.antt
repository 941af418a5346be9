-- ===== src/Lib.antt =====
-- The client of Knowtfolio (client/src), a React application in TypeScript for articles that can be
-- registered as NFTs: its calls of the servers, its two contexts, its forms and its tables, with
-- the builds of the client and the scripts that deploy the contract (blockchain).
--
-- Base: truth values, lists and dictionaries, with JavaScript's `||`, truthiness and `===`. A
--   dictionary is a list of entries in the order of an object's keys. Text has `split`,
--   `startsWith` and `includes`.
-- Apis: client/src/apis, a module for each file, function by function: Cognito (cognito.ts),
--   Knowtfolio (knowtfolio.ts), Lambda (lambda.ts), Dynamodb (dynamodb.ts), S3 (s3.ts, with
--   configs/s3.ts and the client of dynamodb.ts); Configs is client/src/configs. Request has the
--   calls that leave the client and the type of the answers of each; Number and Decimal have the
--   numbers that are read from an address. Stateless has the rules by which each function leaves
--   the state alone.
-- React: how the client's code runs. Program has `async` functions, promises and `try`; View has
--   what a component renders and which events the page offers; World has a mounted component with
--   its open calls, which are answered in any order. World/Does has the rules for what it may send,
--   World/Rely those for invariants while the servers are trusted to answer as they should,
--   World/History what the user has done, and World/InOrder answers in the order of the calls. Run
--   runs one handler alone, and Run/Settles has the rules by which a handler ends.
-- Providers: components/organisms/providers, Auth (AuthProvider) and Web3 (Web3Provider with
--   ConnectToMetamaskButton and RequireWeb3Wrapper).
-- Forms: components/organisms/forms. Validation is helper.tsx; SignUp, ResetPassword,
--   UpdatePassword, UpdateProfile, SignIn, RetryConfirmation, RegisterWallet, NewArticle and
--   EditArticle are the components of these names. Each has its state, its first state, its events
--   with their handlers, its effects and its page.
-- Tables: components/organisms/tables. Params is the address of a page; SearchResult is
--   SearchResultTable with forms/SearchForm; OwnedArticles and MyOwnedArticles are the tables of
--   these names; AccountInfo is AccountInfoTable, ArticleOwnerInfoTable and MyAccountInfoTable, and
--   NftInfo is NftInfoTable. Cards has the cards of the articles, with molecules/ArticleCardBase
--   and atoms/NftLinkButton. Address and History have the address of the search page as an abstract
--   one, and Settled its table once nothing is open. Paged is the interface of a table of articles,
--   from which Settled and OwnedArticles/Settled have that.
-- Atoms: components/atoms/TruncatedText and IconImage, and
--   components/organisms/WalletAddressDisplay.
-- Pages: components/pages, EditArticle (EditArticlePage), Account (AccountPage), Article
--   (ArticlePage) and UploadImage (UploadImagePage). Article/Rendered is insertPageContent.tsx, by
--   which the server has a template of the article page, with what `innerHTML` then has of the
--   served page; Article/Escaped is how a text stands in it.
-- Header: components/organisms/Header, and what it offers by who is signed in.
-- App: App.tsx, the table of routes, with layouts/HeaderLayout and the pages that are put together
--   from a header and a form or a table. App/Links collects the handlers of the components as
--   actions and says which paths the table has, and App/Journeys follows a user from one page to
--   the next: a handler's navigation, the load that it asks the AuthProvider for, and the screen.
-- Editor: components/organisms/ArticleEditor, the upload of an image and what the editor is given.
-- Webpack: client/webpack.config.js, its three builds, and which requests its development server
--   passes on, to whom.
-- Contracts: blockchain/scripts and blockchain/hardhat.config.ts, as programs that call Hardhat.
-- Tests: the theorems at concrete inputs.
--
-- A handler is a tree of state updates, effects and calls. A call is a request with the data that
-- the code gives it; the SDKs, the servers, the wallet and the contract are not modelled, and any
-- answer of the type may come, or none. An error that a handler does not catch ends it. Strings are
-- compared as they are; a component's page is its controls in order, with what each shows, whether
-- it is disabled and what it raises, less layout, styles and icons. An effect of a component runs
-- when it is mounted and after the event that changes what it depends on.
--
-- A page that is loaded anew (Web3) starts with its first state and effect; the browser drops the
-- open calls of the old page, which the model allows to be answered. A text of the served page is
-- escaped by the rules of HTML; how the server sanitizes a content (`sanitize`) and how the browser
-- writes the one it has read (`reserialize`) are parameters, as is the template's filling (`fill`).
--
-- Bounds: `sign_in_with_wallet` takes the number of challenges that Cognito may set in a row; the
-- theorems hold of every number that is at least the number of challenges they speak of.
-- `to_string` prints with as many steps as the number has units, which its digits never exceed.
-- `Number` is exact below 2 ^ 53; how other texts are read as numbers is the parameter `other`. The
-- profile form takes the check of URLs (`is_url`) and `encodeURI` (`encode_uri`) as parameters, the
-- editor `encodeURI`, the time and the id of nanoid, the proxies how a context that is a text is
-- read (`matches`), and the routes react-router's choice of a route (`choose`), which is one of the
-- table. Tokens are natural numbers, as the contract's type has them.
--
-- Not modelled: the server and the functions (other languages), the contracts (Solidity), the entry
-- points that hand the application to React's renderers, the theme, and the styled elements without
-- logic.
pub mod Base
pub mod Apis
pub mod React
pub mod Providers
pub mod Atoms
pub mod Forms
pub mod Cards
pub mod Tables
pub mod Webpack
pub mod Contracts
pub mod Editor
pub mod Header
pub mod Pages
pub mod App
pub mod Tests
