-- ===== src/Launch/Opened.antt =====
-- The settings of a network's builder, and the network that it opens (workspaces/src/network/builder.rs
-- and worker/mod.rs).
use near_workspaces_rs.Prelude.{String, Option, none, some, List, [], ◌∷◌, ◌≡◌, refl, ap}
use near_workspaces_rs.Client.Retry.{RetryLib}
use near_workspaces_rs.Launch.{
  Outside, NetworkType, mainnet_type, testnet_type, betanet_type, custom_type, NetworkBuilder, Info,
  new, set_rpc_addr, set_api_key, mainnet_url, mainnet_archival_url, testnet_url,
  testnet_archival_url, betanet_url, testnet, testnet_archival, mainnet, mainnet_archival, betanet,
  custom_network, opened, from_builder, custom_from_builder,
}

-- The functions that start a builder
pub data Start : Type 0 where
  on_testnet on_testnet_archival on_mainnet on_mainnet_archival on_betanet : Start
  on_custom : String → Start

unfoldable pub started : Start → NetworkBuilder
started on_testnet = testnet
started on_testnet_archival = testnet_archival
started on_mainnet = mainnet
started on_mainnet_archival = mainnet_archival
started on_betanet = betanet
started (on_custom rpc_url) = custom_network rpc_url

abbrev pub type_of : Start → NetworkType
type_of on_testnet = testnet_type
type_of on_testnet_archival = testnet_type
type_of on_mainnet = mainnet_type
type_of on_mainnet_archival = mainnet_type
type_of on_betanet = betanet_type
type_of (on_custom rpc_url) = custom_type

-- The calls of the builder's setters
pub data Setting : Type 0 where
  addr key : String → Setting

unfoldable pub apply : NetworkBuilder → List Setting → NetworkBuilder
apply build [] = build
apply build (addr a ∷ settings) = apply (set_rpc_addr build a) settings
apply build (key k ∷ settings) = apply (set_api_key build k) settings

-- The last address and the last key that are set, if not the ones given first
abbrev pub last_addr : String → List Setting → String
last_addr a [] = a
last_addr a (addr b ∷ settings) = last_addr b settings
last_addr a (key k ∷ settings) = last_addr a settings

abbrev pub last_key : Option String → List Setting → Option String
last_key k [] = k
last_key k (addr b ∷ settings) = last_key k settings
last_key k (key l ∷ settings) = last_key (some l) settings

-- What the name of a network stands for: the address if none is set, and the network's own data
abbrev pub address : Start → String
address on_testnet = "https://rpc.testnet.near.org"
address on_testnet_archival = "https://archival-rpc.testnet.near.org"
address on_mainnet = "https://rpc.mainnet.near.org"
address on_mainnet_archival = "https://archival-rpc.mainnet.near.org"
address on_betanet = "https://rpc.betanet.near.org"
address (on_custom rpc_url) = rpc_url

abbrev pub described : Start → String → Info
described on_testnet url = record {
  name = "testnet";
  root_id = "testnet";
  keystore_path = ".near-credentials/testnet/";
  rpc_url = url;
}
described on_testnet_archival url = record {
  name = "testnet-archival";
  root_id = "testnet";
  keystore_path = ".near-credentials/testnet/";
  rpc_url = url;
}
described on_mainnet url = record {
  name = "mainnet";
  root_id = "near";
  keystore_path = ".near-credentials/mainnet/";
  rpc_url = url;
}
described on_mainnet_archival url = record {
  name = "mainnet-archival";
  root_id = "near";
  keystore_path = ".near-credentials/mainnet/";
  rpc_url = url;
}
described on_betanet url = record {
  name = "betanet";
  root_id = "near";
  keystore_path = ".near-credentials/betanet/";
  rpc_url = url;
}
described (on_custom rpc_url) url = record {
  name = "custom";
  root_id = "near";
  keystore_path = ".near-credentials/mainnet/";
  rpc_url = url;
}

abbrev set_up : String → Option String → Option String → NetworkBuilder
set_up name a k = record { name = name; rpc_addr = a; validator_key = none; api_key = k }

module _ (name : String) where
  -- The last settings are those that count.
  applied :
      (a : String) (k : Option String) (settings : List Setting)
      → apply (set_up name (some a) k) settings
        ≡ set_up name (some (last_addr a settings)) (last_key k settings)
  unfolding apply set_rpc_addr set_api_key
  applied a k [] = refl
  applied a k (addr b ∷ settings) = applied b k settings
  applied a k (key l ∷ settings) = applied a (some l) settings

module _ (lib : RetryLib) {W : Type 0} (outside : Outside W) where
  -- A network with an address of its own is opened as if that address were set first.
  defaulted :
      (network : NetworkType) (name a : String)
      → ((k : Option String)
          → from_builder lib outside network (set_up name none k)
            ≡ from_builder lib outside network (set_up name (some a) k))
      → (k : Option String) (settings : List Setting)
      → from_builder lib outside network (apply (set_up name none k) settings)
        ≡ from_builder lib outside network
            (set_up name (some (last_addr a settings)) (last_key k settings))
  unfolding apply set_rpc_addr set_api_key
  defaulted network name a same k [] = same k
  defaulted network name a same k (addr b ∷ settings) =
      ap (from_builder lib outside network) (applied name b k settings)
  defaulted network name a same k (key l ∷ settings) =
      defaulted network name a same (some l) settings

  -- Whatever is set on the builder of a network, and in whatever order, awaiting it opens the address
  -- that was set last, or the network's own if none was, with the key that was set last, under the
  -- network's name. The builder of a custom network never panics for want of an address.
  pub from_builder-apply :
      (start : Start) (settings : List Setting)
      → from_builder lib outside (type_of start) (apply (started start) settings)
        ≡ opened lib outside
            (last_addr (address start) settings)
            (last_key none settings)
            (described start)
  unfolding from_builder started testnet testnet_archival mainnet mainnet_archival betanet
      custom_network new set_rpc_addr custom_from_builder
  from_builder-apply on_testnet settings =
      defaulted testnet_type "testnet" testnet_url (λ k. refl) none settings
  from_builder-apply on_testnet_archival settings =
      ap (from_builder lib outside testnet_type)
        (applied "testnet-archival" testnet_archival_url none settings)
  from_builder-apply on_mainnet settings =
      defaulted mainnet_type "mainnet" mainnet_url (λ k. refl) none settings
  from_builder-apply on_mainnet_archival settings =
      ap (from_builder lib outside mainnet_type)
        (applied "mainnet-archival" mainnet_archival_url none settings)
  from_builder-apply on_betanet settings =
      defaulted betanet_type "betanet" betanet_url (λ k. refl) none settings
  from_builder-apply (on_custom rpc_url) settings =
      ap (from_builder lib outside custom_type) (applied "custom" rpc_url none settings)
