-- ===== src/Operations/Batch/Deferred.antt =====
-- What a chain of builder calls leaves in a batch (workspaces/src/operations.rs).
use mathlib.Core.List.{append_assoc, append-nil}
use near_workspaces_rs.Prelude.{ℕ, ◌≡◌, refl, ◌∙◌, List, [], ◌∷◌, ◌++◌, arith}
use near_workspaces_rs.Result.{Result, ok, err}
use near_workspaces_rs.Primitives.{AccountId, PublicKey, Bytes, Action}
use near_workspaces_rs.Error.{Error}
use near_workspaces_rs.Types.{AccessKey, InMemorySigner, access_key_into_near}
use near_workspaces_rs.Operations.Function.{Function}
use near_workspaces_rs.Operations.Batch
use near_workspaces_rs.Operations.Batch.{Transaction, new}

-- One call on the builder.
pub data Build : Type 0 where
  adds_key : PublicKey → AccessKey → Build
  calls : Function → Build
  creates_account : Build
  deletes_account : AccountId → Build
  deletes_key : PublicKey → Build
  deploys : Bytes → Build
  stakes : ℕ → PublicKey → Build
  transfers : ℕ → Build

pub apply : Transaction → Build → Transaction
apply t (adds_key pk ak) = Batch.add_key t pk ak
apply t (calls f) = Batch.call t f
apply t creates_account = Batch.create_account t
apply t (deletes_account b) = Batch.delete_account t b
apply t (deletes_key pk) = Batch.delete_key t pk
apply t (deploys code) = Batch.deploy t code
apply t (stakes amount pk) = Batch.stake t amount pk
apply t (transfers deposit) = Batch.transfer t deposit

pub apply_all : Transaction → List Build → Transaction
apply_all t [] = t
apply_all t (b ∷ bs) = apply_all (apply t b) bs

-- The specification: the action that each call asks for, or the error in its arguments.
abbrev call_action : Function → Result Bytes Error → Result Action Error
call_action f (ok args) = ok (Action.function_call f.name args f.deposit f.gas)
call_action f (err e) = err e

abbrev pub action_of : Build → Result Action Error
action_of (adds_key pk ak) = ok (Action.add_key pk (access_key_into_near ak))
action_of (calls f) = call_action f f.args
action_of creates_account = ok Action.create_account
action_of (deletes_account b) = ok (Action.delete_account b)
action_of (deletes_key pk) = ok (Action.delete_key pk)
action_of (deploys code) = ok (Action.deploy_contract code)
action_of (stakes amount pk) = ok (Action.stake amount pk)
action_of (transfers deposit) = ok (Action.transfer deposit)

-- All the actions in order, or the error of the last call whose arguments have one.
abbrev add_first : Result Action Error → Result (List Action) Error → Result (List Action) Error
add_first (ok a) (ok xs) = ok (a ∷ xs)
add_first (err e) (ok xs) = err e
add_first r (err e) = err e

pub all_actions : List Build → Result (List Action) Error
all_actions [] = ok []
all_actions (b ∷ bs) = add_first (action_of b) (all_actions bs)

abbrev after_actions :
    Result (List Action) Error → Result (List Action) Error → Result (List Action) Error
after_actions (ok xs) (ok bs) = ok (xs ++ bs)
after_actions (err e) (ok bs) = err e
after_actions r (err e) = err e

pushed_step :
    (r rest : Result (List Action) Error) (a : Action)
    → after_actions (Batch.pushed r a) rest ≡ after_actions r (add_first (ok a) rest)
pushed_step (ok xs) (ok ys) a = rw (append_assoc xs (a ∷ []) ys)
pushed_step (ok xs) (err e) a = refl
pushed_step (err e) (ok ys) a = refl
pushed_step (err e) (err x) a = refl

call_step :
    (t : Transaction) (f : Function) (args : Result Bytes Error) (rest : Result (List Action) Error)
    → after_actions (Batch.call_with t f args).actions rest
      ≡ after_actions t.actions (add_first (call_action f args) rest)
unfolding Batch.call_with
call_step t f (ok args) rest = pushed_step t.actions rest _
call_step t f (err e) rest = ground arith

apply-actions :
    (t : Transaction) (b : Build) (rest : Result (List Action) Error)
    → after_actions (apply t b).actions rest
      ≡ after_actions t.actions (add_first (action_of b) rest)
unfolding apply Batch.add_key Batch.call Batch.create_account Batch.delete_account Batch.delete_key
    Batch.deploy Batch.stake Batch.transfer
apply-actions t (calls f) rest = call_step t f f.args rest
apply-actions t b rest = pushed_step t.actions rest _

apply_all-actions :
    (t : Transaction) (bs : List Build)
    → (apply_all t bs).actions ≡ after_actions t.actions (all_actions bs)
unfolding apply_all all_actions
apply_all-actions t [] = ground (arith, no_more t.actions)
  where
    no_more : (r : Result (List Action) Error) → after_actions r (ok []) ≡ r
    no_more (ok xs) = rw (append-nil xs)
    no_more (err e) = refl
apply_all-actions t (b ∷ bs) = apply_all-actions (apply t b) bs ∙ apply-actions t b (all_actions bs)

-- A batch built by any calls holds the actions that the calls ask for, in the order of the calls.
-- If the arguments of some call have an error, it holds the error of the last such call instead.
pub built_actions :
    (signer : InMemorySigner) (receiver_id : AccountId) (bs : List Build)
    → (apply_all (new signer receiver_id) bs).actions ≡ all_actions bs
unfolding new
built_actions signer receiver_id bs = apply_all-actions (new signer receiver_id) bs ∙ ground arith
