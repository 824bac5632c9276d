-- ===== src/Examples/Cases.antt =====
-- Batches, waiting, and account creation on the sample nodes.
use near_workspaces_rs.Prelude.{
  ◌+◌, not, ◌==◌, nat_eq, ℕ, ◌≡◌, refl, true, false, String, none, some, List, [], ◌∷◌, arith,
}
use near_workspaces_rs.Result.{ok, err, lift, ◌>>◌}
use near_workspaces_rs.Primitives.{SecretKey}
use near_workspaces_rs.Error.{Error, text, other, custom_repr}
use near_workspaces_rs.Execution.{Execution, from_view}
use near_workspaces_rs.Client.Retry.{retry}
use near_workspaces_rs.Client.{Client, TransactionStatus, query}
use near_workspaces_rs.Client.Calls.{tx_async_status}
use near_workspaces_rs.Operations.Batch
use near_workspaces_rs.Operations.Batch.Deferred.{
  Build, calls, creates_account, transfers, apply_all, all_actions, built_actions,
}
use near_workspaces_rs.Operations.Env.{callbacks}
use near_workspaces_rs.Operations.Status.{wait, status}
use near_workspaces_rs.Operations.Status.Waiting.{after_polls, wait_settled}
use near_workspaces_rs.Operations.Transact.{Account}
use near_workspaces_rs.Network.{TopLevelAccountCreator, Helper, dev_create_account}
use near_workspaces_rs.Network.Creation.{created_by_status, dev_create_account_by_status}
use near_workspaces_rs.Server.{System, Running, acquire_unused_port}
use near_workspaces_rs.Server.Locks.{Offer, acquire_first_free}
use near_workspaces_rs.Network.{home_dir}
use near_workspaces_rs.Examples.{lib, call, env, idle, signer, executed}
use near_workspaces_rs.Examples.Codes.{b64}

abbrev bad_args : Error
bad_args = record { repr = custom_repr other (text "no JSON") }

-- An account's creation, a call whose arguments have an error, and a transfer.
abbrev builds : List Build
builds =
    creates_account
    ∷ calls (record { name = "greet"; args = err bad_args; deposit = 0; gas = 10 })
    ∷ transfers 5
    ∷ []

built_actions_example :
    (apply_all (Batch.new signer "bob.test") builds).actions ≡ all_actions builds
built_actions_example = built_actions signer "bob.test" builds

abbrev sent : TransactionStatus
sent = record { sender_id = "alice.test"; hash = 1 ∷ [] }

abbrev looked_once : Client ℕ
looked_once = record { access_key_nonces = []; node = 1 }

wait_settled_example :
    wait lib call 3 sent looked_once
    ≡ some (ok (from_view executed), after_polls lib call sent 1 looked_once)
unfolding status tx_async_status query retry
wait_settled_example =
    wait_settled lib call sent 0 3 looked_once (ok (from_view executed)) (omega arith) tt refl

abbrev account : Account
account = record { signer = signer }

abbrev helper : Helper ℕ
helper = record { to_vec = λ id pk. ok (1 ∷ []); post = λ body n. (ok tt, n) }

abbrev seed : String → SecretKey
seed s = "sk"

abbrev made : Execution Account
made = record { result = account; details = from_view executed }

abbrev creator : TopLevelAccountCreator ℕ
creator = record {
  create_tla = λ id sk e. (ok made, e);
  create_tla_and_deploy = λ id sk wasm e. (ok none, e);
}

dev_create_account_by_status_example :
    dev_create_account b64 creator idle seed "dev.test" env
    ≡ (do callbacks idle made.details.total_gas_burnt; lift (created_by_status made)) env
dev_create_account_by_status_example =
    dev_create_account_by_status b64 creator idle seed "dev.test" made env env refl

-- A system that offers the ports 0, 1, 2 and so on, where port 0 is taken.
abbrev system : System ℕ
system = record {
  bind = λ n. (ok n, n + 1);
  local_port = λ l n. (ok l, n);
  create_lockfile = λ p n. (ok p, n);
  try_lock_exclusive = λ f n. (not (f == 0), n);
  unlock = λ f n. (ok tt, n);
}

acquire_first_free_example : acquire_unused_port system 3 0 ≡ some (ok (1, 1), 2)
acquire_first_free_example =
    acquire_first_free system 1 3 0 1 2 (1, 1) (omega arith) ((0, 0), 1, taken, refl) free
  where
    taken : Offer system false 0 (0, 0) 1
    taken = record {
      listener = 0;
      bound = 1;
      found = 1;
      made = 1;
      binds = refl;
      finds = refl;
      makes = refl;
      locks = refl;
    }

    free : Offer system true 1 (1, 1) 2
    free = record {
      listener = 1;
      bound = 2;
      found = 2;
      made = 2;
      binds = refl;
      finds = refl;
      makes = refl;
      locks = refl;
    }

abbrev running : Running ℕ
running = record {
  server = record {
    validator_key = home_dir "/tmp/sandbox";
    rpc_addr = "http://127.0.0.1:1";
    net_port = some 2;
    rpc_port_lock = some 1;
    net_port_lock = some 2;
    process = some 7;
  };
  system = 0;
}
