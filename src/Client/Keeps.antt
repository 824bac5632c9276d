-- ===== src/Client/Keeps.antt =====
-- Rules for what an action of the client (workspaces/src/rpc/client.rs) does to the node: which
-- properties it keeps, and how many transactions it broadcasts.
use near_workspaces_rs.Prelude.{ℕ, ◌+◌, ◌*◌, ◌≤◌, arith}
use near_workspaces_rs.Result.{Result, ok, err, Exec, continue, ◌>>=◌, pure, lift, mapping_err}
use near_workspaces_rs.Primitives.Rpc.{Request, Call}
use near_workspaces_rs.Client.Retry.{RetryLib, retry, retry_rule, retry_cost}
use near_workspaces_rs.Client.{Client, rpc_call, query}

-- An action that keeps a property of the node.
pub record KeepsNode {W A E : Type 0} (P : W → Type 0) (m : Exec (Client W) A E) : Type 0 where
  pub at : (c : Client W) → P c.node → P (m c).1.node

-- An action that adds at most `k` to a count that the node keeps.
pub record Costs {W A E : Type 0} (cost : W → ℕ) (k : ℕ) (m : Exec (Client W) A E) : Type 0 where
  pub at : (c : Client W) → cost (m c).1.node ≤ cost c.node + k

-- How many transactions a request broadcasts and waits for.
abbrev pub broadcasts : Request → ℕ
broadcasts (Request.broadcast_tx_commit tx) = 1
broadcasts _ = 0

module _ {W A E : Type 0} where
  pub lift-KeepsNode : {P : W → Type 0} (r : Result A E) → KeepsNode {A = A} P (lift r)
  unfolding lift
  lift-KeepsNode r = record { at = λ c p. p }

  pub pure-KeepsNode : {P : W → Type 0} (a : A) → KeepsNode {E = E} P (pure a)
  unfolding pure
  pure-KeepsNode a = record { at = λ c p. p }

  pub lift-Costs : {cost : W → ℕ} (r : Result A E) → Costs {A = A} cost 0 (lift r)
  unfolding lift
  lift-Costs r = record { at = λ c. omega arith }

  pub pure-Costs : {cost : W → ℕ} (a : A) → Costs {E = E} cost 0 (pure a)
  unfolding pure
  pure-Costs a = record { at = λ c. omega arith }

  pub mapping_err-KeepsNode :
      {F : Type 0} {P : W → Type 0} (f : E → F) (m : Exec (Client W) A E)
      → KeepsNode P m
      → KeepsNode P (mapping_err f m)
  unfolding mapping_err
  mapping_err-KeepsNode f m k = record { at = k.at }

  pub mapping_err-Costs :
      {F : Type 0} {cost : W → ℕ} {i : ℕ} (f : E → F) (m : Exec (Client W) A E)
      → Costs cost i m
      → Costs cost i (mapping_err f m)
  unfolding mapping_err
  mapping_err-Costs f m k = record { at = k.at }

module _ {W A B E : Type 0} where
  continue-KeepsNode :
      (P : W → Type 0) (r : Result A E) (c : Client W) (f : A → Exec (Client W) B E)
      → P c.node
      → ((a : A) → KeepsNode P (f a))
      → P (continue r c f).1.node
  continue-KeepsNode P (ok a) c f p kf = (kf a).at c p
  continue-KeepsNode P (err e) c f p kf = p

  pub bind-KeepsNode :
      {P : W → Type 0} (m : Exec (Client W) A E) (f : A → Exec (Client W) B E)
      → KeepsNode P m
      → ((a : A) → KeepsNode P (f a))
      → KeepsNode P (m >>= f)
  unfolding ◌>>=◌
  bind-KeepsNode {P} m f km kf = record {
    at = λ c p. continue-KeepsNode P (m c).0 (m c).1 f (km.at c p) kf;
  }

  continue-Costs :
      (cost : W → ℕ) (k : ℕ) (r : Result A E) (c : Client W) (f : A → Exec (Client W) B E)
      → ((a : A) → Costs cost k (f a))
      → cost (continue r c f).1.node ≤ cost c.node + k
  continue-Costs cost k (ok a) c f kf = (kf a).at c
  continue-Costs cost k (err e) c f kf = omega arith

  pub bind-Costs :
      {cost : W → ℕ} (i k : ℕ) (m : Exec (Client W) A E) (f : A → Exec (Client W) B E)
      → Costs cost i m
      → ((a : A) → Costs cost k (f a))
      → Costs cost (i + k) (m >>= f)
  unfolding ◌>>=◌
  bind-Costs {cost} i k m f km kf = record {
    at = λ c. omega (arith, km.at c, continue-Costs cost k (m c).0 (m c).1 f kf);
  }

pub ruleset keeps_rules = (lift-KeepsNode, pure-KeepsNode, mapping_err-KeepsNode, bind-KeepsNode)

module _ (lib : RetryLib) {W : Type 0} where
  pub retry-KeepsNode :
      {A E : Type 0} {P : W → Type 0} (m : Exec (Client W) A E)
      → KeepsNode P m
      → KeepsNode P (retry lib m)
  retry-KeepsNode {P = P} m k = record {
    at = λ c p. (retry_rule lib m (λ d. P d.node) (λ _ _. Unit {0}) (λ d q. (k.at d q, tt)) c p).0;
  }

  pub retry-Costs :
      {A E : Type 0} {cost : W → ℕ} (i : ℕ) (m : Exec (Client W) A E)
      → Costs cost i m
      → Costs cost (i * 5) (retry lib m)
  retry-Costs {cost = cost} i m k = record { at = retry_cost lib m (λ d. cost d.node) i k.at }

module _ (lib : RetryLib) {W : Type 0} (call : Call W) where
  pub query-KeepsNode :
      {P : W → Type 0} (r : Request)
      → ((w : W) → P w → P (call r w).1)
      → KeepsNode P (query lib call r)
  unfolding query rpc_call
  query-KeepsNode r keep =
      retry-KeepsNode lib (rpc_call lib call r) (record { at = λ c p. keep c.node p })

  pub query-Costs :
      {cost : W → ℕ} (k : ℕ) (r : Request)
      → ((w : W) → cost (call r w).1 ≤ cost w + k)
      → Costs cost (k * 5) (query lib call r)
  unfolding query rpc_call
  query-Costs k r each = retry-Costs lib k (rpc_call lib call r) (record { at = λ c. each c.node })
