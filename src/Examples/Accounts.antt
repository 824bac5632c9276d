-- ===== src/Examples/Accounts.antt =====
-- Accounts, their credentials and texts, and the client's steps, on the sample nodes.
use near_workspaces_rs.Prelude.{
  ℕ, suc, nat_eq, ◌+◌, ◌<◌, String, none, some, [], ◌∷◌, ◌≡◌, refl, ap, arith, ◌==◌, string_eq,
  if◌then◌else◌,
}
use near_workspaces_rs.Result.{Result, ok, err, lift, pure, ◌>>=◌, mapping_err}
use near_workspaces_rs.Primitives.{u64_mod, AccountId, SecretKey, AccessKeyView, Bytes}
use near_workspaces_rs.Error.{Error, BoxedError}
use near_workspaces_rs.Types.Texts.{NearKeyType, near_ed25519, near_secp256k1, TextCodec}
use near_workspaces_rs.Client.Tasks.{looks, ended}
use near_workspaces_rs.Client.Tasks.Alone.{Moves, send_once-Moves}
use near_workspaces_rs.Client.Retry.{retry}
use near_workspaces_rs.Client.{Client, query, access_key, send_once}
use near_workspaces_rs.Client.Nonces.{CacheKey, cached}
use near_workspaces_rs.Client.Nonces.Race.{Trace}
use near_workspaces_rs.Client.Refines.{HasRoom, Shows}
use near_workspaces_rs.Operations.Batch
use near_workspaces_rs.Operations.Env.{mapping}
use near_workspaces_rs.Operations.Transact.{
  Account, CreateAccountTransaction, transact, create_transact, new_id, key_or_seeded,
}
use near_workspaces_rs.Operations.Transact.Creates.{
  creating, execution_of, create_transact-transact,
}
use near_workspaces_rs.Network
use near_workspaces_rs.Network.{sandbox_creator, create_tla, create_tla_and_deploy, default_deposit}
use near_workspaces_rs.Network.Tla.{contract_of, create_tla-transact}
use near_workspaces_rs.Handles.OfAccount.{transfer_near, delete_account, batch, id}
use near_workspaces_rs.Handles.Sent.{no_hooks, sent_at_once-transact}
use near_workspaces_rs.Handles.Credentials.{KeyFiles, owner_only, store_credentials}
use near_workspaces_rs.Handles.Credentials.Stored.{Modes, store_credentials-owner_only}
use near_workspaces_rs.Map
use near_workspaces_rs.Examples.{lib, call, client, env, idle, signer, public_key}
use near_workspaces_rs.Examples.Codes.{b64}

abbrev alice : Account
alice = record { signer = signer }

sent_at_once-transact_example :
    (transfer_near lib call public_key alice "bob.test" 5 env
      ≡ transact lib call public_key no_hooks (Batch.transfer (batch alice "bob.test") 5) env)
    × (delete_account lib call public_key alice "bob.test" env
        ≡ transact lib call public_key no_hooks
            (Batch.delete_account (batch alice (id alice)) "bob.test")
            env)
    × (Network.deploy lib call public_key alice (0 ∷ []) env
        ≡ mapping
            (λ details. record { result = record { account = alice }; details = details })
            (transact lib call public_key no_hooks (Batch.deploy (batch alice (id alice)) (0 ∷ [])))
            env)
sent_at_once-transact_example =
    sent_at_once-transact lib call public_key alice "bob.test" 5 (0 ∷ []) env

-- One file: the state is its mode, and how often a file was written that others may read.
abbrev key_files : KeyFiles (ℕ × ℕ)
key_files = record {
  create_dir_all = λ dir w. (ok tt, w);
  join = λ dir name. dir;
  create = λ path w. (ok 0, (420, w.1));
  metadata = λ file w. (ok tt, w);
  set_permissions = λ file m w. (ok tt, (m, w.1));
  content = λ id sk. 1 ∷ [];
  write_all = λ file bytes w. (ok tt, (w.0, if w.0 == owner_only then w.1 else suc w.1));
}

abbrev modes : Modes key_files
modes = record { mode = λ file w. w.0; set = λ file m w h. refl }

Unexposed : ℕ × ℕ → Type 0
Unexposed w = w.1 ≡ 0

write_all-Unexposed :
    (file : ℕ) (bytes : Bytes) (w : ℕ × ℕ)
    → w.0 ≡ owner_only
    → Unexposed w
    → Unexposed (key_files.write_all file bytes w).1
unfolding Unexposed
write_all-Unexposed file bytes (m, n) mode h = rw mode h

store_credentials-owner_only_example :
    Unexposed (store_credentials key_files alice "/tmp" (420, 0)).1
unfolding Unexposed
store_credentials-owner_only_example =
    store_credentials-owner_only key_files modes Unexposed (λ dir w h. h) (λ path w h. h)
      (λ file w h. h) (λ file m w h. h) write_all-Unexposed alice "/tmp" (420, 0) refl

abbrev show_type : NearKeyType → String
show_type near_ed25519 = "ed25519"
show_type near_secp256k1 = "secp256k1"

abbrev read_type : String → Result NearKeyType BoxedError
read_type s = if s == "ed25519" then ok near_ed25519 else ok near_secp256k1

read-show_type : (t : NearKeyType) → read_type (show_type t) ≡ ok t
read-show_type near_ed25519 = refl
read-show_type near_secp256k1 = refl

abbrev texts : TextCodec
texts = record {
  show_key_type = show_type;
  parse_key_type = read_type;
  show_public_key = λ pk. pk;
  parse_public_key = λ s. ok s;
  show_secret_key = λ sk. sk;
  parse_secret_key = λ s. ok s;
  to_base58 = b64.encode;
  from_base58 = b64.decode;
  parse-show_key_type = read-show_type;
  parse-show_public_key = λ pk. refl;
  parse-show_secret_key = λ sk. refl;
  from-to_base58 = b64.decode-encode;
}

abbrev key : CacheKey
key = ("alice.test", "pk")

no_nonce : (n : ℕ) → cached key client.access_key_nonces ≡ some n → n + 1 < u64_mod
unfolding Map.get
no_nonce n e = absurd (cc)

told_nonce :
    (k : AccessKeyView) (hash : Bytes) (d : Client ℕ)
    → access_key lib call "alice.test" "pk" client ≡ (ok (k, hash), d)
    → k.nonce + 1 < u64_mod
unfolding access_key query retry ◌>>=◌ mapping_err lift pure
told_nonce k hash d e = omega (arith, same)
  where
    nonce_of : Result (AccessKeyView × Bytes) Error → ℕ
    nonce_of (ok (key, hash)) = key.nonce
    nonce_of (err x) = 41

    same : 41 ≡ k.nonce
    same = ap (λ (r : Result (AccessKeyView × Bytes) Error × Client ℕ). nonce_of r.0) e

abbrev room : HasRoom lib call key client
room = record { in_cache = no_nonce; told = told_nonce }

abbrev at_start : Trace
at_start = record { nonces = []; issued = [] }

send_once-Moves_example :
    (u : Trace) × (Moves key at_start looks u
        (ended (send_once lib call public_key signer "bob.test" [] client).0)
      × Shows u (send_once lib call public_key signer "bob.test" [] client).1)
send_once-Moves_example =
    send_once-Moves lib call public_key signer "bob.test" [] at_start client refl room

abbrev seed : String → SecretKey
seed s = "sk"

abbrev parse : String → Result AccountId BoxedError
parse s = ok s

abbrev sub : CreateAccountTransaction
sub = record {
  signer = signer;
  parent_id = "alice.test";
  new_account_id = "sub";
  initial_balance = 7;
  secret_key = none;
}

create_transact-transact_example :
    create_transact lib call public_key seed parse idle sub env
    ≡ (do
      new ← lift (new_id lib call public_key seed parse sub)
      mapping
          (λ details. execution_of new (key_or_seeded lib call public_key seed parse sub) details)
          (transact lib call public_key idle (
            creating signer new (public_key (key_or_seeded lib call public_key seed parse sub)) 7)))
        env
create_transact-transact_example =
    create_transact-transact lib call public_key seed parse idle sub env

create_tla-transact_example :
    (create_tla b64 (sandbox_creator lib call public_key (ok signer)) idle "dev.test" "sk" env
      ≡ (do
        root ← lift (ok signer)
        mapping
            (λ details. execution_of "dev.test" "sk" details)
            (transact lib call public_key idle (creating root "dev.test" "pk" default_deposit)))
          env)
    × (create_tla_and_deploy b64
          (sandbox_creator lib call public_key (ok signer))
          idle
          "dev.test"
          "sk"
          (0 ∷ [])
          env
        ≡ (do
          root ← lift (ok signer)
          mapping
              (λ details. some (contract_of "dev.test" "sk" details))
              (transact lib call public_key idle
                (Batch.deploy (creating root "dev.test" "pk" default_deposit) (0 ∷ []))))
            env)
create_tla-transact_example =
    create_tla-transact b64 lib call public_key (ok signer) idle "dev.test" "sk" (0 ∷ []) env
