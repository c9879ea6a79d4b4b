-- ===== src/Web3/Http.antt =====
-- examples/web3/src/rpc.rs, rpc_apis.rs, rpc_service.rs, extractors.rs, http_common.rs and
-- metadata.rs: the HTTP server of the service, up to the builder of jsonrpc-http-server that starts
-- it. The types of that crate, of hyper and of types/provenance.rs are parameters.
use durian.Base.{
  ℕ, ◌*◌, ◌%◌, ◌^◌, ◌⊎◌, inl, inr, Bool, true, false, Option, none, some, List, [], ◌∷◌, ◌++◌,
  if◌then◌else◌, Bytes, codes, map,
}
pub mod Started
use mathlib.Core.Option
use durian.Decimal.{decimal}
use durian.Blockchain.{Blockchain}
use durian.Web3.Service.{Mutex}

-- `Api` and `ApiSet`
pub data Api : Type 0 where
  transaction : Api

pub data ApiSet : Type 0 where
  list : List Api → ApiSet

unfoldable pub default_apis : ApiSet
default_apis = ApiSet.list (Api.transaction ∷ [])

unfoldable pub list_apis : ApiSet → List Api
list_apis (ApiSet.list apis) = apis

pub record HttpConfiguration : Type 0 where
  pub enabled : Bool
  pub interface : Bytes
  pub port : ℕ
  pub apis : ApiSet
  pub cors : Option (List Bytes)
  pub server_threads : ℕ
  pub max_payload : ℕ
  pub keep_alive : Bool

-- `HttpConfiguration::default`
unfoldable pub default_configuration : HttpConfiguration
unfolding default_apis
default_configuration = record {
  enabled = true;
  interface = codes "127.0.0.1";
  port = 8545;
  apis = default_apis;
  cors = some [];
  server_threads = 1;
  max_payload = 5;
  keep_alive = true;
}

-- An error of `std::io`, as far as it is asked about.
pub record IoError : Type 0 where
  pub addr_in_use : Bool
  pub debug_text : Bytes

-- The two headers of a request that are read, where they are there, and as text where they are text.
pub record Headers : Type 0 where
  pub origin : Option (Option Bytes)
  pub user_agent : Option (Option Bytes)

-- `Metadata` of metadata.rs
pub record Metadata (O : Type 0) : Type 0 where
  pub origin : O

-- What the server is built from. `D` is the validation of domains, `H` the handler and `O` the origin of
-- a request.
pub record ServerSettings (D H O : Type 0) : Type 0 where
  pub handler : H
  pub read_metadata : Headers → Metadata O
  pub keep_alive : Bool
  pub threads : ℕ
  pub cors : D
  pub health_api : Bytes × Bytes
  pub any_cors_allow_headers : Bool
  pub max_request_body_size : ℕ

-- `with_compatibility(Compatibility::Both)`, `extend_with` a set of methods over a blockchain, the
-- parsing of a socket address, `AccessControlAllowOrigin::from`, the conversion of a list of these, and
-- `ServerBuilder::start_http` with what the operating system answers it.
pub record HttpCrates : Type 1 where
  pub Addr : Type 0
  pub Domains : Type 0
  pub Handler : Type 0
  pub Origin : Type 0
  pub AllowOrigin : Type 0
  pub Server : Type 0
  pub empty_handler : Handler
  pub extend_with : Mutex Blockchain → Handler → Handler
  pub parse : Bytes → Option Addr
  pub allow_origin : Bytes → AllowOrigin
  pub domains : Option (List AllowOrigin) → Domains
  pub rpc : Bytes → Origin
  pub start : ServerSettings Domains Handler Origin → Addr → IoError ⊎ Server

unfoldable pub or_else : Option Bytes → Bytes → Bytes
or_else none d = d
or_else (some t) d = t

-- The closure `as_string` of `read_metadata`.
unfoldable pub as_string : Option (Option Bytes) → Option Bytes
as_string none = none
as_string (some text) = text

unfoldable pub url_of : HttpConfiguration → Bytes
url_of conf = conf.interface ++ (codes ":" ++ decimal conf.port)

module _ ⦃crates : HttpCrates⦄ where
  -- `RpcExtractor::read_metadata`
  unfoldable pub read_metadata : Option Bytes → Option Bytes → Metadata crates.Origin
  unfolding or_else
  read_metadata origin user_agent = record {
    origin = crates.rpc (
        or_else origin (codes "unknown origin")
        ++ (codes " / " ++ or_else user_agent (codes "unknown agent")));
  }

  -- `MetaExtractor::read_metadata`
  unfoldable pub extract : Headers → Metadata crates.Origin
  unfolding read_metadata as_string
  extract headers = read_metadata (as_string headers.origin) (as_string headers.user_agent)

  unfoldable pub extend_all : List Api → Blockchain → crates.Handler → crates.Handler
  extend_all [] bc handler = handler
  extend_all (Api.transaction ∷ apis) bc handler =
      extend_all apis bc (crates.extend_with (record { poisoned = false; contents = bc }) handler)

  unfoldable pub setup_rpc : crates.Handler → ApiSet → Blockchain → crates.Handler
  unfolding extend_all list_apis
  setup_rpc handler apis bc = extend_all (list_apis apis) bc handler

  unfoldable pub into_domains : Option (List Bytes) → crates.Domains
  into_domains items = crates.domains (Option.map (map crates.allow_origin) items)

  -- `max_payload * 1024 * 1024` is on `usize`, and wraps.
  unfoldable pub start_http :
      crates.Addr → crates.Domains → crates.Handler → ℕ → ℕ → Bool → IoError ⊎ crates.Server
  unfolding extract
  start_http addr cors_domains handler threads max_payload keep_alive =
      crates.start
        (record {
          handler = handler;
          read_metadata = extract;
          keep_alive = keep_alive;
          threads = threads;
          cors = cors_domains;
          health_api = (codes "/api/health", codes "durian_value");
          any_cors_allow_headers = true;
          max_request_body_size = max_payload * 1024 * 1024 % 2 ^ 64;
        })
        addr

  -- The `match` on the result of the start.
  unfoldable pub started :
      Bytes → Bytes → Bytes → IoError ⊎ crates.Server → Bytes ⊎ Option crates.Server
  started id options url (inr server) = inr (some server)
  started id options url (inl e) = inl (
      if e.addr_in_use
      then id
        ++ (codes " address "
            ++ (url
                ++ (codes
                      " is already in use, make sure that another instance of an Ethereum client is not running or change the address using the --"
                    ++ (options
                        ++ (codes "-port and --" ++ (options ++ codes "-interface options."))))))
      else id ++ (codes " error: " ++ e.debug_text))

  abbrev pub start_at :
      Bytes
      → Bytes
      → HttpConfiguration
      → Blockchain
      → Option crates.Addr
      → Bytes ⊎ Option crates.Server
  start_at id options conf bc none =
      inl (codes "Invalid " ++ (id ++ (codes " listen host/port given: " ++ url_of conf)))
  start_at id options conf bc (some addr) = started id options (url_of conf) (
      start_http addr (into_domains conf.cors) (setup_rpc crates.empty_handler conf.apis bc)
        conf.server_threads conf.max_payload conf.keep_alive)

  -- With the new blockchain that it makes.
  unfoldable pub new_http :
      Bytes → Bytes → HttpConfiguration → Blockchain → Bytes ⊎ Option crates.Server
  unfolding started start_http into_domains setup_rpc url_of
  new_http id options conf bc =
      if conf.enabled then start_at id options conf bc (crates.parse (url_of conf)) else inr none
