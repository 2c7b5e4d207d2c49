-- ===== src/HttpServer/Running.antt =====
-- http_server.go: starting and stopping the server of a suite. Listening, in the test mode without
-- an end, is left out; the routes of the proxy and of the mail server are parameters.
use apitest.Base.{
  Bool, true, false, String, Option, none, some, ◌∷◌, ◌++◌, str_eq, if◌then◌else◌, ◌≡◌, refl,
}
use apitest.Base.Dict.{Dict}
use apitest.HttpServer.{
  Handler, Encoding, custom_static_handler, cookies_middleware, bounce_json, bounce_binary,
  bounce_query,
}

-- path/filepath, and http.FileServer of a directory
pub record Files : Type 0 where
  pub is_abs : String → Bool
  pub clean : String → String
  pub join : String → String → String
  pub file_server : String → Handler

pub record Config : Type 0 where
  pub addr : String
  pub dir : String

pub record Server : Type 0 where
  pub addr : String
  pub handlers : Dict Handler

-- HttpServer, manifestDir, httpServerDir and httpServer of a suite.
pub record Suite : Type 0 where
  pub http_server : Option Config
  pub manifest_dir : String
  pub http_server_dir : String
  pub running : Option Server

-- The log is all that the two handlers differ in.
unfoldable pub log_h : Bool → Handler → Handler
log_h true next = next
log_h false next = λ r w. next r w

module _ (files : Files) (enc : Encoding) where
  unfoldable pub server_dir : String → String → String
  server_dir manifest_dir d =
      if str_eq d ""
      then manifest_dir
      else if files.is_abs d
      then files.clean d
      else files.join manifest_dir d

  unfoldable pub routes : Bool → String → Dict Handler → Dict Handler → Dict Handler
  unfolding log_h custom_static_handler cookies_middleware bounce_json bounce_binary bounce_query
  routes log_short d proxy smtp =
      ("/", log_h log_short (custom_static_handler enc (files.file_server d)))
      ∷ ("/bounce-json", log_h log_short (cookies_middleware enc (bounce_json enc)))
      ∷ ("/bounce", log_h log_short (bounce_binary enc))
      ∷ ("/bounce-query", log_h log_short (bounce_query enc))
      ∷ (proxy ++ smtp)

  unfoldable pub start_configured :
      Bool → Dict Handler → Dict Handler → Option Config → Option Server → Suite → Suite
  unfolding server_dir routes
  start_configured log_short proxy smtp (some c) none ats =
      let d = server_dir ats.manifest_dir c.dir in
      record ats {
        http_server_dir = d;
        running = some (record { addr = c.addr; handlers = routes log_short d proxy smtp });
      }
  start_configured log_short proxy smtp none server ats = ats
  start_configured log_short proxy smtp (some c) (some server) ats = ats

  -- Nothing is started without a configuration, or twice.
  unfoldable pub start_http_server : Bool → Dict Handler → Dict Handler → Suite → Suite
  unfolding start_configured
  start_http_server log_short proxy smtp ats =
      start_configured log_short proxy smtp ats.http_server ats.running ats

  unfoldable pub stop_configured : Option Config → Suite → Suite
  stop_configured none ats = ats
  stop_configured (some c) ats = record ats { running = none }

  -- The field is emptied whatever Shutdown returns.
  unfoldable pub stop_http_server : Suite → Suite
  unfolding stop_configured
  stop_http_server ats = stop_configured ats.http_server ats

  started_twice :
      (log_short : Bool) (proxy smtp : Dict Handler) (cfg : Option Config) (server : Option Server)
      (ats : Suite)
      → ats.http_server ≡ cfg
      → ats.running ≡ server
      → start_http_server log_short proxy smtp
          (start_configured log_short proxy smtp cfg server ats)
        ≡ start_configured log_short proxy smtp cfg server ats
  unfolding start_configured start_http_server
  started_twice log_short proxy smtp none server ats h k = rw h refl
  started_twice log_short proxy smtp (some c) none ats h k = rw h refl
  started_twice log_short proxy smtp (some c) (some server) ats h k = rw (h, k) refl

  -- Starting a second time changes nothing.
  pub start_http_server-idempotent :
      (log_short : Bool) (proxy smtp : Dict Handler) (ats : Suite)
      → start_http_server log_short proxy smtp (start_http_server log_short proxy smtp ats)
        ≡ start_http_server log_short proxy smtp ats
  unfolding start_http_server
  start_http_server-idempotent log_short proxy smtp ats =
      started_twice log_short proxy smtp ats.http_server ats.running ats refl refl
