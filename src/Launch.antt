-- ===== src/Launch.antt =====
-- Opening a network: workspaces/src/network/builder.rs, network/info.rs, `Client::new` of
-- rpc/client.rs, `from_builder` in network/mainnet.rs, network/testnet.rs, network/betanet.rs and
-- network/custom.rs, and the functions of worker/mod.rs. The connection by the crate
-- near_jsonrpc_client, the crate url and the environment's variable are parameters.
pub mod Opened
pub mod Sandbox
pub mod Answered
use mathlib.Core.Option
use near_workspaces_rs.Prelude.{ℕ, String, Option, none, some, unwrap_or, List, []}
use near_workspaces_rs.Result
use near_workspaces_rs.Result.{Result, ok, err, Exec, MayPanic, pure, lift, ◌>>=◌, map_err}
use near_workspaces_rs.Primitives.{AccountId}
use near_workspaces_rs.Primitives.Rpc.{Call}
use near_workspaces_rs.Error.{Error, BoxedError, custom, data_conversion}
use near_workspaces_rs.Client.Retry.{RetryLib}
use near_workspaces_rs.Client.Nonces.{NonceMap}
use near_workspaces_rs.Client.{Client}
use near_workspaces_rs.Client.Calls.{wait_for_rpc}
use near_workspaces_rs.Meter.{GasHook}
use near_workspaces_rs.Network.{ValidatorKey}

-- The connector of near_jsonrpc_client: an address, and the API key that goes with every call.
pub record JsonRpcClient : Type 0 where
  pub server_addr : String
  pub header : Option String

-- What is outside: `auth::ApiKey::new`, the node that a connection reaches, `Url::parse`, the parser of
-- `usize`, and the value of NEAR_RPC_TIMEOUT_SECS.
pub record Outside (W : Type 0) : Type 0 where
  pub new_api_key : String → Result String BoxedError
  pub call : JsonRpcClient → Call W
  pub parse_url : String → Result String BoxedError
  pub parse_usize : String → Result ℕ BoxedError
  pub timeout_var : Option String

-- The type parameter that stands behind a builder's `PhantomData`, less `Sandbox`
pub data NetworkType : Type 0 where
  mainnet_type testnet_type betanet_type custom_type : NetworkType

pub record NetworkBuilder : Type 0 where
  pub name : String
  pub rpc_addr : Option String
  pub validator_key : Option ValidatorKey
  pub api_key : Option String

-- `NetworkBuilder::new`
unfoldable pub new : String → NetworkBuilder
new name = record { name = name; rpc_addr = none; validator_key = none; api_key = none }

unfoldable pub set_rpc_addr : NetworkBuilder → String → NetworkBuilder
set_rpc_addr self addr = record self { rpc_addr = some addr }

unfoldable pub set_api_key : NetworkBuilder → String → NetworkBuilder
set_api_key self api_key = record self { api_key = some api_key }

pub record Info : Type 0 where
  pub name : String
  pub root_id : AccountId
  pub keystore_path : String
  pub rpc_url : String

-- `Mainnet`, `Testnet`, `Betanet` and `Custom`: the client's connection and its cache, and the info
pub record Network : Type 0 where
  pub rpc_client : JsonRpcClient
  pub access_key_nonces : NonceMap
  pub info : Info

-- `Worker`, of a network of the type
pub record Worker (N : Type 0) : Type 0 where
  pub workspace : N
  pub tx_callbacks : List GasHook

unfoldable pub new_worker : {N : Type 0} → N → Worker N
new_worker network = record { workspace = network; tx_callbacks = [] }

-- `RPC_URL` and `ARCHIVAL_URL` of network/mainnet.rs, network/testnet.rs and network/betanet.rs
abbrev pub mainnet_url : String
mainnet_url = "https://rpc.mainnet.near.org"

abbrev pub mainnet_archival_url : String
mainnet_archival_url = "https://archival-rpc.mainnet.near.org"

abbrev pub testnet_url : String
testnet_url = "https://rpc.testnet.near.org"

abbrev pub testnet_archival_url : String
testnet_archival_url = "https://archival-rpc.testnet.near.org"

abbrev pub betanet_url : String
betanet_url = "https://rpc.betanet.near.org"

-- The functions of worker/mod.rs that start a builder
unfoldable pub testnet : NetworkBuilder
testnet = new "testnet"

unfoldable pub testnet_archival : NetworkBuilder
testnet_archival = set_rpc_addr (new "testnet-archival") testnet_archival_url

unfoldable pub mainnet : NetworkBuilder
mainnet = new "mainnet"

unfoldable pub mainnet_archival : NetworkBuilder
mainnet_archival = set_rpc_addr (new "mainnet-archival") mainnet_archival_url

unfoldable pub betanet : NetworkBuilder
betanet = new "betanet"

unfoldable pub custom_network : String → NetworkBuilder
custom_network rpc_url = set_rpc_addr (new "custom") rpc_url

module _ (lib : RetryLib) {W : Type 0} (outside : Outside W) where
  -- `Client::new`
  unfoldable pub new_client : String → Option String → Result JsonRpcClient Error
  unfolding custom
  new_client rpc_addr none = ok (record { server_addr = rpc_addr; header = none })
  new_client rpc_addr (some api_key) =
      Result.map (λ key. record { server_addr = rpc_addr; header = some key })
        (map_err (custom data_conversion) (outside.new_api_key api_key))

  -- `client.wait_for_rpc()` of a new client, with its cache
  unfoldable pub waited : JsonRpcClient → Exec W NonceMap Error
  waited rpc_client w =
      let (r, c) =
        wait_for_rpc lib (outside.call rpc_client) outside.parse_usize outside.timeout_var
          (record { access_key_nonces = []; node = w }) in
      (Result.map (λ u. c.access_key_nonces) r, c.node)

  -- The network whose address `Url::parse` has read; `none` is the panic of `expect`.
  network_at :
      JsonRpcClient → NonceMap → (String → Info) → Result String BoxedError → MayPanic Network
  network_at rpc_client nonces info (err e) = none
  network_at rpc_client nonces info (ok rpc_url) =
      some (record { rpc_client = rpc_client; access_key_nonces = nonces; info = info rpc_url })

  -- What the `from_builder` functions do with the address
  unfoldable pub opened : String → Option String → (String → Info) → Exec W (MayPanic Network) Error
  unfolding network_at
  opened rpc_url api_key info = do
    client ← lift (new_client rpc_url api_key)
    nonces ← waited client
    pure (network_at client nonces info (outside.parse_url rpc_url))

  abbrev pub info_of : NetworkBuilder → AccountId → String → String → Info
  info_of build root_id keystore_path rpc_url = record {
    name = build.name;
    root_id = root_id;
    keystore_path = keystore_path;
    rpc_url = rpc_url;
  }

  custom_from_builder : Option String → NetworkBuilder → Exec W (MayPanic Network) Error
  custom_from_builder none build = pure none
  custom_from_builder (some rpc_url) build =
      opened rpc_url build.api_key (info_of build "near" ".near-credentials/mainnet/")

  -- `FromNetworkBuilder::from_builder`
  unfoldable pub from_builder : NetworkType → NetworkBuilder → Exec W (MayPanic Network) Error
  unfolding custom_from_builder
  from_builder mainnet_type build =
      opened (unwrap_or build.rpc_addr mainnet_url) build.api_key
        (info_of build "near" ".near-credentials/mainnet/")
  from_builder testnet_type build =
      opened (unwrap_or build.rpc_addr testnet_url) build.api_key
        (info_of build "testnet" ".near-credentials/testnet/")
  from_builder betanet_type build =
      opened (unwrap_or build.rpc_addr betanet_url) build.api_key
        (info_of build "near" ".near-credentials/betanet/")
  from_builder custom_type build = custom_from_builder build.rpc_addr build

  -- `NetworkBuilder::into_future`
  unfoldable pub into_future :
      NetworkType → NetworkBuilder → Exec W (MayPanic (Worker Network)) Error
  unfolding new_worker
  into_future network_type self = do
    network ← from_builder network_type self
    pure (Option.map new_worker network)

  module _ {T : Type 0} (task : Worker Network → W → T × W) where
    run_task : MayPanic (Worker Network) → Exec W (MayPanic T) Error
    run_task none w = (ok none, w)
    run_task (some worker) w = let (t, w') = task worker w in (ok (some t), w')

    -- The functions of worker/mod.rs that run a task on a worker
    unfoldable pub with_network : NetworkType → NetworkBuilder → Exec W (MayPanic T) Error
    unfolding run_task
    with_network network_type builder = do
      worker ← into_future network_type builder
      run_task worker
