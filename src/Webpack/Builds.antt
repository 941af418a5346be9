-- ===== src/Webpack/Builds.antt =====
-- client/webpack.config.js: the three builds of the client, as the settings that webpack is given. The
-- directory of the file is an argument; a path below it is written with a slash between, and what
-- `require.resolve` finds by the name of the package.
use knowtfolio.Base.{ℕ, String, Bool, true, false, Option, none, some, List, [], ◌∷◌, concat}
use knowtfolio.Base.Dict.{Dict}
use knowtfolio.Webpack.{goes_to_server}

-- A loader by its name, with the options of the loader for modules of styles.
pub data Loader : Type 0 where
  loader : (name : String) → Loader
  css_modules : (import_loaders : ℕ) (exports : String) → Loader

-- The tests are regular expressions, kept by their text.
pub record Rule : Type 0 where
  pub test : String
  pub exclude : Option String
  pub uses : List Loader

pub data Plugin : Type 0 where
  html : (template filename : String) → Plugin
  mini_css_extract : Plugin
  provide : (process buffer : String) → Plugin
  dotenv : Plugin
  define_render_on : String → Plugin

pub record Resolve : Type 0 where
  pub modules : List String
  pub extensions : List String
  pub fallback : Dict String
  pub alias : Dict String

pub record BuildOutput : Type 0 where
  pub public_path : Option String
  pub path : String
  pub filename : String

-- The `context` of a proxy: a text, or a test of the request's path.
pub data Context : Type 0 where
  named : String → Context
  chosen : (String → Bool) → Context

pub record Proxy : Type 0 where
  pub context : Context
  pub change_origin : Bool
  pub target : String

pub record DevServer : Type 0 where
  pub rewrites : Dict String
  pub port : ℕ
  pub proxy : List Proxy

pub record Build : Type 0 where
  pub target : String
  pub mode : String
  pub entry : String
  pub plugins : List Plugin
  -- The packages that stay outside of the bundle, but for the files that the text matches.
  pub node_externals : Option String
  pub rules : List Rule
  pub resolve : Resolve
  pub output : BuildOutput
  pub minimizer : List String
  pub dev_server : Option DevServer

abbrev pub module_settings : List Rule
module_settings =
    record { test = "\\.tsx?$"; exclude = some "node_modules"; uses = loader "ts-loader" ∷ [] }
    ∷ record {
      test = "\\.css$";
      exclude = some "\\.module\\.css$";
      uses = loader "MiniCssExtractPlugin.loader" ∷ loader "css-loader" ∷ [];
    }
    ∷ record {
      test = "\\.module\\.css$";
      exclude = none;
      uses = loader "MiniCssExtractPlugin.loader" ∷ css_modules 1 "camelCase" ∷ [];
    }
    ∷ record { test = "\\.(png|jpe?g|gif|svg)$"; exclude = none; uses = loader "file-loader" ∷ [] }
    ∷ []

-- `path.resolve(__dirname, name)`.
abbrev pub below : String → String → String
below dirname name = concat (dirname ∷ "/" ∷ name ∷ [])

abbrev pub web_resolve_settings : String → Resolve
web_resolve_settings dirname = record {
  modules = "node_modules" ∷ [];
  extensions = ".js" ∷ ".ts" ∷ ".tsx" ∷ [];
  fallback =
      ("crypto", "crypto-browserify")
      ∷ ("stream", "stream-browserify")
      ∷ ("assert", "assert")
      ∷ ("http", "stream-http")
      ∷ ("https", "https-browserify")
      ∷ ("os", "os-browserify")
      ∷ ("url", "url")
      ∷ [];
  alias = ("~", below dirname "src") ∷ [];
}

-- The proxies of the development server, in order.
abbrev pub proxies : List Proxy
proxies =
    record {
      context = named "/api/validate_sign_up_form";
      change_origin = true;
      target = "https://knowtfolio.com";
    }
    ∷ record {
      context = named "/api/wallet_address";
      change_origin = true;
      target = "https://knowtfolio.com";
    }
    ∷ record {
      context = named "/api/users";
      change_origin = true;
      target = "https://knowtfolio.com";
    }
    ∷ record {
      context = chosen goes_to_server;
      change_origin = false;
      target = "http://server:8080";
    }
    ∷ []

abbrev pub dev_server : DevServer
dev_server = record { rewrites = ("^\\/*", "/index.html") ∷ []; port = 3000; proxy = proxies }

-- What the two builds for browsers share, by their entry, their page and their bundle.
abbrev web_build : String → (entry page bundle : String) → Option DevServer → Build
web_build dirname entry page bundle server = record {
  target = "web";
  mode = "production";
  entry = below dirname entry;
  plugins =
      html (below dirname "src/index.html") (below dirname page)
      ∷ mini_css_extract
      ∷ provide "process/browser" "buffer"
      ∷ dotenv
      ∷ define_render_on "Client"
      ∷ [];
  node_externals = none;
  rules = module_settings;
  resolve = web_resolve_settings dirname;
  output = record { public_path = some "/"; path = below dirname "dist"; filename = bundle };
  minimizer = "CssMinimizerPlugin" ∷ "TerserPlugin" ∷ [];
  dev_server = server;
}

-- For the site but its pages of articles, rendered by the client alone.
unfoldable pub client_build : String → Build
client_build dirname =
    web_build dirname "src/clientSideRender.tsx" "dist/index.html" "clientSideRender.js"
      (some dev_server)

-- For the pages of articles, which the server renders first.
unfoldable pub article_build : String → Build
article_build dirname =
    web_build dirname "src/serverSideRender.tsx" "dist/article_template.html" "serverSideRender.js"
      none

-- For the script that puts the page into the template.
unfoldable pub insert_build : String → Build
insert_build dirname = record {
  target = "node";
  mode = "production";
  entry = "./src/insertPageContent.tsx";
  plugins =
      mini_css_extract
      ∷ dotenv
      ∷ define_render_on "Server"
      ∷ provide "process/browser" "buffer"
      ∷ [];
  node_externals = some "\\.css$";
  rules = module_settings;
  resolve = record {
    modules = "node_modules" ∷ [];
    extensions = ".js" ∷ ".ts" ∷ ".tsx" ∷ ".json" ∷ [];
    fallback = [];
    alias = ("~", below dirname "src") ∷ [];
  };
  output = record {
    public_path = none;
    path = below dirname "dist";
    filename = "insertPageContent.js";
  };
  minimizer = [];
  dev_server = none;
}

abbrev pub builds : String → List Build
builds dirname = client_build dirname ∷ article_build dirname ∷ insert_build dirname ∷ []
