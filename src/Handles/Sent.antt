-- ===== src/Handles/Sent.antt =====
-- What an account sends at once against its batches (workspaces/src/types/account.rs).
use near_workspaces_rs.Prelude.{ℕ, ◌≡◌, refl, []}
use near_workspaces_rs.Result
use near_workspaces_rs.Result.{Result, ok, err, continue, pure, lift, ◌>>=◌, ◌>>◌}
use near_workspaces_rs.Primitives.{
  AccountId, SecretKey, PublicKey, Bytes, FinalExecutionOutcomeView,
}
use near_workspaces_rs.Primitives.Rpc.{Call}
use near_workspaces_rs.Error.{Error}
use near_workspaces_rs.Execution.{ExecutionFinalResult, from_view}
use near_workspaces_rs.Client.Retry.{RetryLib}
use near_workspaces_rs.Client.Calls
use near_workspaces_rs.Client.Calls.{send_tx_and_retry}
use near_workspaces_rs.Operations.Batch
use near_workspaces_rs.Operations.Env.{Env, Worker, on_client, mapping}
use near_workspaces_rs.Operations.Transact.{Account, transact, transact_raw, report}
use near_workspaces_rs.Network
use near_workspaces_rs.Network.{Contract}
use near_workspaces_rs.Handles.OfAccount.{transfer_near, delete_account, batch, id}

-- A worker with no hooks
abbrev pub no_hooks : Worker
no_hooks = record { tx_callbacks = [] }

module _ (lib : RetryLib) {W : Type 0} (node : Call W) (public_key : SecretKey → PublicKey) where
  -- A worker without hooks reports nothing.
  unreported :
      (r : Result FinalExecutionOutcomeView Error) (s : Env W)
      → continue r s (λ view. do report lib node public_key no_hooks view; pure view) ≡ (r, s)
  unfolding report pure ◌>>◌ ◌>>=◌
  unreported (ok view) s = refl
  unreported (err e) s = refl

  returned :
      {B : Type 0} (r : Result FinalExecutionOutcomeView Error) (s : Env W)
      (f : ExecutionFinalResult → B)
      → continue r s (λ view. pure (f (from_view view)))
        ≡ (Result.map f (Result.map from_view r), s)
  unfolding pure
  returned (ok view) s f = refl
  returned (err e) s f = refl

  -- An account's transfer, deletion and deployment are its batches with that one action, sent by a
  -- worker without hooks: with the same results, errors and requests, and without a report to any gas meter,
  -- whatever the hooks of the account's own worker are.
  pub sent_at_once-transact :
      (self : Account) (other : AccountId) (amount : ℕ) (wasm : Bytes) (env : Env W)
      → (transfer_near lib node public_key self other amount env
          ≡ transact lib node public_key no_hooks (Batch.transfer (batch self other) amount) env)
        × (delete_account lib node public_key self other env
            ≡ transact lib node public_key no_hooks
                (Batch.delete_account (batch self (id self)) other)
                env)
        × (Network.deploy lib node public_key self wasm env
            ≡ mapping
                (λ details. record { result = record { account = self }; details = details })
                (transact lib node public_key no_hooks (Batch.deploy (batch self (id self)) wasm))
                env)
  unfolding transfer_near delete_account Network.transfer_near Network.delete_account Network.deploy
      Calls.transfer_near Calls.delete_account Calls.deploy send_tx_and_retry transact transact_raw
      batch id Batch.new Batch.transfer Batch.delete_account Batch.deploy lift mapping ◌>>=◌
      on_client
  sent_at_once-transact self other amount wasm env =
      (rw (unreported _ _) refl, rw (unreported _ _) refl, rw (unreported _ _) (returned _ _ _))
