-- ===== src/Tests/Web3.antt =====
-- The JSON-RPC service at concrete inputs.
use durian.Base.{
  ℕ, ◌≡◌, ◌↔◌, refl, inr, true, false, Option, none, some, List, [], ◌∷◌, ◌++◌, arith, Bytes, codes,
}
use durian.Exec.{panicked}
use durian.HashMap.{get}
use durian.Decimal.{decimal}
use durian.Blockchain.{Block, Blockchain, new_blockchain}
use durian.Blockchain.Blocks.{IsChain}
use durian.Web3.Service.{Mutex, Call, answer, serve_all}
use durian.Web3.Poison.{answer-after_unknown_receipt, serve_all-IsChain}
use durian.Web3.Ether.{IsDecimal, format_ether}
use durian.Web3.Ether.Amount.{IsEther, format_ether-IsEther}
use durian.Web3.Http.{
  HttpCrates, default_configuration, extract, extend_all, list_apis, setup_rpc, start_http, started,
  new_http,
}
use durian.Web3.Http.Started.{listen_text, meant_by, new_http-started}
use durian.Tests.Fixtures.{
  plain_crates, byte_memory, plain_chain_crates, plain_tools, plain_interpreter, hash_two, contract,
  genesis, genesis-IsChain,
}

-- A mutex that no one has poisoned.
abbrev service : Mutex Blockchain
service = record { poisoned = false; contents = genesis }

answer-after_unknown_receipt_example :
    let mutex' =
      serve_all Bytes Bytes Bytes
        (λ b. 1)
        ((Call.transaction_receipt hash_two, (λ n. n)) ∷ (Call.gas_price, (λ n. n)) ∷ [])
        service in
    ((answer Bytes Bytes Bytes (λ b. 1) (Call.code_at contract) (λ n. n) mutex').0 ≡ panicked)
    × (mutex'.contents ≡ genesis)
unfolding new_blockchain get
answer-after_unknown_receipt_example =
    answer-after_unknown_receipt Bytes Bytes Bytes (λ b. 1) hash_two (λ n. n) service
      ((Call.gas_price, (λ n. n)) ∷ []) (Call.code_at contract) (λ n. n) refl (λ e. cc)

abbrev requests : List (Call × (ℕ → ℕ))
requests = (Call.transaction_receipt hash_two, (λ n. n)) ∷ (Call.code_at contract, (λ n. n)) ∷ []

serve_all-IsChain_example :
    let bc' = (serve_all Bytes Bytes Bytes (λ b. 1) requests service).contents in
    IsChain bc' × ((more : List Block) × (bc'.blocks ≡ genesis.blocks ++ more))
serve_all-IsChain_example =
    serve_all-IsChain Bytes Bytes Bytes (λ b. 1) requests service genesis-IsChain

decimal_1500-IsDecimal : IsDecimal decimal 1500
unfolding decimal
decimal_1500-IsDecimal = record {
  digits = (
    omega arith,
    omega arith,
    (omega arith, omega arith, (omega arith, omega arith, (omega arith, omega arith, tt))),
  );
  nonempty = λ e. cc;
  value = refl;
}

-- 1500 wei are 0.0000000000000015 ether.
format_ether_1500 : format_ether decimal 1500 ≡ codes "0.0000000000000015"
unfolding format_ether decimal
format_ether_1500 = refl

format_ether-IsEther_example : IsEther (format_ether decimal 1500) 1500
format_ether-IsEther_example = format_ether-IsEther decimal 1500 decimal_1500-IsDecimal

-- An HTTP server is the size of the bodies that it takes, and a handler is the methods it has.
instance abbrev plain_http : HttpCrates
plain_http = record {
  Addr = Bytes;
  Domains = Option (List Bytes);
  Handler = List (Mutex Blockchain);
  Origin = Bytes;
  AllowOrigin = Bytes;
  Server = ℕ × List (Mutex Blockchain);
  empty_handler = [];
  extend_with = λ methods handler. methods ∷ handler;
  parse = some;
  allow_origin = λ text. text;
  domains = λ items. items;
  rpc = λ text. text;
  start = λ settings addr. inr (settings.max_request_body_size, settings.handler);
}

new_http-started_example :
    (new_http (codes "HTTP") (codes "http") default_configuration genesis
      ≡ inr (some (5242880, service ∷ [])))
    ↔ ((default_configuration.enabled ≡ true)
        × (addr : Bytes) × (plain_http.parse (listen_text default_configuration) ≡ some addr)
        × (plain_http.start (meant_by default_configuration genesis) addr
            ≡ inr (5242880, service ∷ [])))
new_http-started_example =
    new_http-started (codes "HTTP") (codes "http") default_configuration genesis
      (5242880, service ∷ [])

-- The default configuration starts a server.
default_server :
    new_http (codes "HTTP") (codes "http") default_configuration genesis
    ≡ inr (some (5242880, service ∷ []))
unfolding new_http started start_http setup_rpc extend_all list_apis default_configuration
default_server = refl

metadata_without_headers :
    (extract (record { origin = none; user_agent = some none })).origin
    ≡ codes "unknown origin / unknown agent"
unfolding extract
metadata_without_headers = refl
