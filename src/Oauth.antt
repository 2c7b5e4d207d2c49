-- ===== src/Oauth.antt =====
-- pkg/lib/util/oauth.go: the tokens that a configured client asks for. The requests, and what
-- golang.org/x/oauth2 does of a flow, are parameters; `none` is an index out of range, which panics.
pub mod Params
use apitest.Base.{
  ℕ, Bool, true, false, not, String, Option, none, some, List, [], ◌∷◌, ◌++◌, Outcome, ok, err,
  ◌>>=◌, str_eq, ◌==◌, if◌then◌else◌,
}
use apitest.Base.Dict.{Dict, lookup, insert}
use apitest.Base.Int.{ℤ}
use apitest.Api.Request.{values_of}

pub record ClientConfig : Type 0 where
  pub client : String
  pub secret : String
  pub auth_url : String
  pub token_url : String
  pub redirect_url : String
  pub scopes : List String

-- oauth2.Config and clientcredentials.Config
pub record CodeConfig : Type 0 where
  pub client_id : String
  pub client_secret : String
  pub auth_url : String
  pub token_url : String
  pub redirect_url : String
  pub scopes : List String

pub record CredentialsConfig : Type 0 where
  pub client_id : String
  pub client_secret : String
  pub token_url : String

unfoldable pub get_client_config : ClientConfig → CodeConfig
get_client_config c = record {
  client_id = c.client;
  client_secret = c.secret;
  auth_url = c.auth_url;
  token_url = c.token_url;
  redirect_url = c.redirect_url;
  scopes = c.scopes;
}

unfoldable pub get_client_credentials_config : ClientConfig → CredentialsConfig
get_client_credentials_config c = record {
  client_id = c.client;
  client_secret = c.secret;
  token_url = c.token_url;
}

pub record Token : Type 0 where
  pub access_token : String
  pub refresh_token : String

-- A URL without its query, and its query.
pub record Url : Type 0 where
  pub base : String
  pub query : Dict (List String)
  -- EscapedFragment()
  pub fragment : String

pub record Network : Type 0 where
  -- Config.PasswordCredentialsToken, Config.Token, Config.AuthCodeURL and Config.Exchange
  pub password_token : CodeConfig → String → String → Outcome String Token
  pub credentials_token : CredentialsConfig → Outcome String Token
  pub auth_code_url : CodeConfig → String → List (String × String) → String
  pub exchange : CodeConfig → String → List (String × String) → Outcome String Token
  -- url.Parse, and url.ParseQuery
  pub parse_url : String → Outcome String Url
  pub parse_query : String → Outcome String (Dict (List String))
  -- a GET: the status, and the URL of the last request of the redirects
  pub get : Url → Outcome String (ℕ × Url)

pub data OauthError : Type 0 where
  network : String → OauthError
  no_proper_status : ℕ → OauthError
  -- params[i+1] is out of range
  panic : OauthError

unfoldable pub told : {A : Type 0} → Outcome String A → Outcome OauthError A
told (ok a) = ok a
told (err e) = err (network e)

-- The loops `for i := 0; i < len(params); i += 2`: the state, and the other parameters.
unfoldable pub add_option :
    String → String → String × List (String × String) → String × List (String × String)
add_option k v (state, opts) = if str_eq k "state" then (v, opts) else (state, opts ++ (k, v) ∷ [])

unfoldable pub split_state :
    List String
    → String × List (String × String)
    → Outcome OauthError (String × List (String × String))
unfolding add_option
split_state [] s = ok s
split_state (k ∷ []) s = err panic
split_state (k ∷ v ∷ params) s = split_state params (add_option k v s)

unfoldable pub set_all : List String → Dict (List String) → Outcome OauthError (Dict (List String))
unfolding insert
set_all [] q = ok q
set_all (k ∷ []) q = err panic
set_all (k ∷ v ∷ params) q = set_all params (insert k (v ∷ []) q)

unfoldable pub pair_up :
    List String → List (String × String) → Outcome OauthError (List (String × String))
pair_up [] opts = ok opts
pair_up (k ∷ []) opts = err panic
pair_up (k ∷ v ∷ params) opts = pair_up params (opts ++ (k, v) ∷ [])

-- `cqv.Set(k, vv)` for each of the values.
unfoldable pub set_values : String → List String → Dict (List String) → Dict (List String)
unfolding insert
set_values k [] q = q
set_values k (v ∷ vs) q = set_values k vs (insert k (v ∷ []) q)

unfoldable pub overwrite : Dict (List String) → Dict (List String) → Dict (List String)
unfolding set_values
overwrite [] q = q
overwrite ((k, vs) ∷ rest) q = overwrite rest (set_values k vs q)

unfoldable pub first_of : Option (List String) → String
first_of none = ""
first_of (some []) = ""
first_of (some (v ∷ vs)) = v

module _ (net : Network) (c : ClientConfig) where
  unfoldable pub get_password_credentials_auth_token : String → String → Outcome OauthError Token
  unfolding told get_client_config
  get_password_credentials_auth_token username password =
      told (net.password_token (get_client_config c) username password)

  unfoldable pub get_client_credentials_auth_token : Outcome OauthError Token
  unfolding told get_client_credentials_config
  get_client_credentials_auth_token = told (net.credentials_token (get_client_credentials_config c))

  unfoldable pub get_code_auth_url : List String → Outcome OauthError String
  unfolding split_state get_client_config
  get_code_auth_url params = do
    s ← split_state params ("", [])
    ok (net.auth_code_url (get_client_config c) s.0 s.1)

  unfoldable pub checked_status : ℕ × Url → Outcome OauthError Url
  checked_status (status, u) = if status == 200 then ok u else err (no_proper_status status)

  unfoldable pub get_redirect_url : List String → Outcome OauthError Url
  unfolding get_code_auth_url told set_all overwrite checked_status
  get_redirect_url params = do
    text ← get_code_auth_url params
    u ← told (net.parse_url text)
    q ← set_all params []
    got ← told (net.get (record u { query = overwrite q u.query }))
    checked_status got

  unfoldable pub get_code_auth_token : List String → Outcome OauthError Token
  unfolding get_redirect_url first_of lookup pair_up told get_client_config
  get_code_auth_token params = do
    u ← get_redirect_url params
    opts ← pair_up params []
    told (net.exchange (get_client_config c) (first_of (lookup "code" u.query)) opts)

  unfoldable pub get_auth_token : List String → Outcome OauthError Token
  unfolding get_redirect_url first_of lookup told
  get_auth_token params = do
    u ← get_redirect_url params
    q ← told (net.parse_query u.fragment)
    ok (record {
      access_token = first_of (lookup "access_token" q);
      refresh_token = first_of (lookup "refresh_token" q);
    })
