-- ===== src/Web3/Http/Started.antt =====
-- When `new_http` of examples/web3/src/rpc.rs returns a server, and how that was started.
use durian.Base.{
  ℕ, zero, suc, ◌*◌, ◌%◌, ◌^◌, ◌≡◌, ◌∙◌, ◌↔◌, refl, ◌⊎◌, inl, inr, Bool, true, false, Option, none,
  some, List, [], ◌∷◌, ◌++◌, length, map, arith, if◌then◌else◌, Bytes, codes,
}
use durian.Decimal.{decimal}
use durian.Blockchain.{Blockchain}
use durian.Web3.Http.{
  Api, ApiSet, Headers, HttpConfiguration, IoError, ServerSettings, HttpCrates, list_apis,
  as_string, or_else, read_metadata, extract, extend_all, setup_rpc, into_domains, start_http,
  url_of, started, start_at, new_http,
}

some-injective : {A : Type 0} {a b : A} → some a ≡ some b → a ≡ b
some-injective e = cc

-- A test before an optional result.
guarded-eq-some :
    {A B : Type 0} (b : Bool) (x : A ⊎ Option B) (y : B)
    → ((if b then x else inr none) ≡ inr (some y)) ↔ ((b ≡ true) × (x ≡ inr (some y)))
guarded-eq-some true x y = (λ e. (refl, e), λ (_, e). e)
guarded-eq-some false x y = (λ e. cc, λ (h, e). cc)

-- A header's text, or the given one where the header is missing or is not text.
abbrev pub header_text : Option (Option Bytes) → Bytes → Bytes
header_text (some (some text)) missing = text
header_text _ missing = missing

abbrev pub repeated : {A : Type 0} → ℕ → (A → A) → A → A
repeated zero f a = a
repeated (suc n) f a = f (repeated n f a)

repeated-after : {A : Type 0} (n : ℕ) (f : A → A) (a : A) → repeated n f (f a) ≡ f (repeated n f a)
repeated-after zero f a = refl
repeated-after (suc n) f a = rw (repeated-after n f a) refl

or_else-as_string :
    (header : Option (Option Bytes)) (missing : Bytes)
    → or_else (as_string header) missing ≡ header_text header missing
unfolding or_else as_string
or_else-as_string none missing = refl
or_else-as_string (some none) missing = refl
or_else-as_string (some (some text)) missing = refl

-- Where a configuration listens: the interface, a colon and the port.
abbrev pub listen_text : HttpConfiguration → Bytes
listen_text conf = conf.interface ++ (codes ":" ++ decimal conf.port)

module _ ⦃crates : HttpCrates⦄ where
  -- The server that a configuration means, said without the code that sets it up: one set of methods
  -- over the blockchain, behind a mutex that no one has poisoned, for each API in the list; the origin
  -- of a request from its two headers; no restriction of origins, or the configured ones; and the
  -- configured size in mebibytes.
  abbrev pub meant_by :
      HttpConfiguration → Blockchain → ServerSettings crates.Domains crates.Handler crates.Origin
  meant_by conf bc = record {
    handler =
        repeated (elim conf.apis [ ApiSet.list apis ↦ length apis ])
          (crates.extend_with (record { poisoned = false; contents = bc })) crates.empty_handler;
    read_metadata = λ headers. record {
      origin = crates.rpc (
          header_text headers.origin (codes "unknown origin")
          ++ (codes " / " ++ header_text headers.user_agent (codes "unknown agent")));
    };
    keep_alive = conf.keep_alive;
    threads = conf.server_threads;
    cors = elim conf.cors [
      | none ↦ crates.domains none
      | some origins ↦ crates.domains (some (map crates.allow_origin origins))
    ];
    health_api = (codes "/api/health", codes "durian_value");
    any_cors_allow_headers = true;
    max_request_body_size = conf.max_payload * 1048576 % 2 ^ 64;
  }

  extend_all-repeated :
      (apis : List Api) (bc : Blockchain) (handler : crates.Handler)
      → extend_all apis bc handler
        ≡ repeated
            (length apis)
            (crates.extend_with (record { poisoned = false; contents = bc }))
            handler
  unfolding extend_all
  extend_all-repeated [] bc handler = refl
  extend_all-repeated (Api.transaction ∷ apis) bc handler =
      extend_all-repeated apis bc
        (crates.extend_with (record { poisoned = false; contents = bc }) handler)
      ∙ repeated-after (length apis)
          (crates.extend_with (record { poisoned = false; contents = bc })) handler

  extract-header_text :
      (headers : Headers)
      → extract headers ≡ record {
        origin = crates.rpc (
            header_text headers.origin (codes "unknown origin")
            ++ (codes " / " ++ header_text headers.user_agent (codes "unknown agent")));
      }
  unfolding extract read_metadata
  extract-header_text headers =
      rw (or_else-as_string headers.origin (codes "unknown origin"))
        (rw (or_else-as_string headers.user_agent (codes "unknown agent")) refl)

  into_domains-cases :
      (cors : Option (List Bytes))
      → into_domains cors ≡ elim cors [
        | none ↦ crates.domains none
        | some origins ↦ crates.domains (some (map crates.allow_origin origins))
      ]
  unfolding into_domains
  into_domains-cases none = refl
  into_domains-cases (some origins) = refl

  handler-meant_by :
      (apis : ApiSet) (bc : Blockchain) (handler : crates.Handler)
      → setup_rpc handler apis bc
        ≡ repeated
            (elim apis [ ApiSet.list l ↦ length l ])
            (crates.extend_with (record { poisoned = false; contents = bc }))
            handler
  unfolding setup_rpc list_apis
  handler-meant_by (ApiSet.list apis) bc handler = extend_all-repeated apis bc handler

  start_http-meant_by :
      (conf : HttpConfiguration) (bc : Blockchain) (addr : crates.Addr)
      → start_http addr
          (into_domains conf.cors)
          (setup_rpc crates.empty_handler conf.apis bc)
          conf.server_threads
          conf.max_payload
          conf.keep_alive
        ≡ crates.start (meant_by conf bc) addr
  unfolding start_http
  start_http-meant_by conf bc addr =
      let size : conf.max_payload * 1024 * 1024 ≡ conf.max_payload * 1048576 = omega arith in
      λ i.
        crates.start
          (record (meant_by conf bc) {
            handler = handler-meant_by conf.apis bc crates.empty_handler i;
            read_metadata = λ headers. extract-header_text headers i;
            cors = into_domains-cases conf.cors i;
            max_request_body_size = size i % 2 ^ 64;
          })
          addr

  started-some :
      (id options url : Bytes) (r : IoError ⊎ crates.Server) (server : crates.Server)
      → (started id options url r ≡ inr (some server)) ↔ (r ≡ inr server)
  unfolding started
  started-some id options url (inr server') server = (λ e. cc, λ e. cc)
  started-some id options url (inl e') server = (λ e. cc, λ e. cc)

  start_at-some :
      (id options : Bytes) (conf : HttpConfiguration) (bc : Blockchain) (found : Option crates.Addr)
      (server : crates.Server)
      → (start_at id options conf bc found ≡ inr (some server)) ↔ (
          (addr : crates.Addr) × (found ≡ some addr)
          × (crates.start (meant_by conf bc) addr ≡ inr server))
  start_at-some id options conf bc none server = (λ e. cc, λ (addr, h, e). cc)
  start_at-some id options conf bc (some addr) server =
      let started_as = crates.start (meant_by conf bc) addr in
      let (there, back) = started-some id options (url_of conf) started_as server in
      rw (start_http-meant_by conf bc addr)
        (λ e. (addr, refl, there e), λ (addr', h, e). back (rw (some-injective h) e))

  -- A server is returned exactly where the configuration is enabled, its interface and port are an
  -- address, and the start at that address with the settings that the configuration means succeeds:
  -- its threads and keep-alive, its size of requests in mebibytes (in 64 bits), its list of origins,
  -- the origin of a request by its headers, and one set of methods over the new blockchain for each
  -- API.
  pub new_http-started :
      (id options : Bytes) (conf : HttpConfiguration) (bc : Blockchain) (server : crates.Server)
      → (new_http id options conf bc ≡ inr (some server)) ↔ (
          (conf.enabled ≡ true)
          × (addr : crates.Addr) × (crates.parse (listen_text conf) ≡ some addr)
          × (crates.start (meant_by conf bc) addr ≡ inr server))
  unfolding new_http url_of
  new_http-started id options conf bc server =
      let found = crates.parse (listen_text conf) in
      let (on, off) = guarded-eq-some conf.enabled (start_at id options conf bc found) server in
      let (there, back) = start_at-some id options conf bc found server in
      (
        λ e. let (h, r) = on e in let (addr, at, e') = there r in (h, addr, at, e'),
        λ (h, addr, at, e). off (h, back (addr, at, e)),
      )
