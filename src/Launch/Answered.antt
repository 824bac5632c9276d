-- ===== src/Launch/Answered.antt =====
-- The wait for a node, and the networks that are opened (workspaces/src/rpc/client.rs and
-- workspaces/src/network/builder.rs).
use near_workspaces_rs.Prelude.{
  ℕ, zero, suc, ◌+◌, ◌*◌, ◌%◌, ◌≤◌, ◌≡◌, refl, sym, ◌∙◌, ap, inr, String, Option, some, List,
  length, length-replicate, replicate, arith,
}
use near_workspaces_rs.Result
use near_workspaces_rs.Result.{
  continue, map_err, map_err-ok, Result, ok, err, Exec, MayPanic, is_err, lift, pure, ◌>>=◌,
  mapping_err,
}
use near_workspaces_rs.Primitives.{u64_mod}
use near_workspaces_rs.Primitives.Rpc.{Request, Call, JsonRpcError}
use near_workspaces_rs.Error.{Error, BoxedError}
use near_workspaces_rs.Client.Retry.{
  RetryLib, state_after, Fails, spawn_run, spawn_rule, spawn_cost,
}
use near_workspaces_rs.Client.{Client, rpc_call}
use near_workspaces_rs.Client.Calls.{status, spawn_status, timeout_secs, wait_for_rpc}
use near_workspaces_rs.Client.Nonces.{NonceMap}
use near_workspaces_rs.Launch.{
  Outside, JsonRpcClient, Info, Network, opened, waited, new_client, network_at,
}

-- `Duration::from_millis(500)`, so many times
abbrev half_seconds : ℕ → List ℕ
half_seconds secs = replicate ((2 * secs) % u64_mod) 500

length-half_seconds : (secs : ℕ) → length (half_seconds secs) ≡ (2 * secs) % u64_mod
length-half_seconds secs = length-replicate {A = ℕ} ((2 * secs) % u64_mod) 500

module _ (lib : RetryLib) {W : Type 0} (call : Call W) where
  retried :
      (secs n : ℕ) (c : Client W)
      → n ≤ (2 * secs) % u64_mod
      → Fails n (status lib call) c
      → (status lib call (state_after n (status lib call) c)).0 ≡ ok tt
      → lib.spawn (Client W) (Unit {0}) JsonRpcError (half_seconds secs) (status lib call) c
        ≡ (ok tt, state_after (suc n) (status lib call) c)
  retried secs n c le f a =
      spawn_run lib (status lib call) (half_seconds secs) n c
        (omega (arith, length-half_seconds secs, le)) f (inr (ap is_err a))
      ∙ answer n c a
    where
      answer :
          (n : ℕ) (c : Client W)
          → (status lib call (state_after n (status lib call) c)).0 ≡ ok tt
          → status lib call (state_after n (status lib call) c)
            ≡ (ok tt, state_after (suc n) (status lib call) c)
      answer zero c a = λ i. (a i, (status lib call c).1)
      answer (suc n) c a = answer n (status lib call c).1 a

  -- Retries that succeed end with a status call that is answered.
  answered :
      (secs : ℕ) (c : Client W)
      → (lib.spawn (Client W) (Unit {0}) JsonRpcError (half_seconds secs) (status lib call) c).0
        ≡ ok tt
      → (w : W) × (call Request.status w ≡ (
        ok tt,
        (lib.spawn
            (Client W)
            (Unit {0})
            JsonRpcError
            (half_seconds secs)
            (status lib call)
            c).1.node,
      ))
  unfolding status rpc_call
  answered secs c =
      (spawn_rule lib (status lib call) (λ s. Unit {0})
        (λ r s. r ≡ ok tt → (w : W) × (call Request.status w ≡ (ok tt, s.node)))
        (λ s u. (tt, λ e. (s.node, λ i. (e i, (call Request.status s.node).1)))) (half_seconds secs)
        c tt).1

  cheap :
      (cost : W → ℕ) (secs : ℕ) (c : Client W)
      → ((w : W) → cost (call Request.status w).1 ≤ cost w + 1)
      → cost
          (lib.spawn
            (Client W)
            (Unit {0})
            JsonRpcError
            (half_seconds secs)
            (status lib call)
            c).1.node
        ≤ cost c.node + suc (2 * secs)
  unfolding status rpc_call
  cheap cost secs c each = omega (
    arith,
    spawn_cost lib (status lib call) (λ c. cost c.node) 1 (λ c. each c.node) (half_seconds secs) c,
    length-half_seconds secs,
  )

  module _ (parse : String → Result ℕ BoxedError) (var : Option String) where
    -- If the timeout is `secs` seconds, the first `n` status calls fail, at most twice `secs` modulo
    -- 2^64, and the next one is answered, then waiting for the node succeeds after that call.
    pub wait_for_rpc-answered :
        (secs n : ℕ) (c : Client W)
        → timeout_secs parse var ≡ ok secs
        → n ≤ (2 * secs) % u64_mod
        → Fails n (status lib call) c
        → (status lib call (state_after n (status lib call) c)).0 ≡ ok tt
        → wait_for_rpc lib call parse var c ≡ (ok tt, state_after (suc n) (status lib call) c)
    unfolding wait_for_rpc spawn_status ◌>>=◌ lift mapping_err
    wait_for_rpc-answered secs n c t le f a = rw (t, retried secs n c le f a) refl

    -- Waiting for the node makes at most one status call more than twice the seconds of the timeout.
    pub wait_for_rpc_bound :
        (cost : W → ℕ) (secs : ℕ) (c : Client W)
        → ((w : W) → cost (call Request.status w).1 ≤ cost w + 1)
        → timeout_secs parse var ≡ ok secs
        → cost (wait_for_rpc lib call parse var c).1.node ≤ cost c.node + suc (2 * secs)
    unfolding wait_for_rpc spawn_status ◌>>=◌ lift mapping_err
    wait_for_rpc_bound cost secs c each t = rw t (cheap cost secs c each)

  pub waited_call :
      (parse : String → Result ℕ BoxedError) (var : Option String) (c : Client W)
      → (wait_for_rpc lib call parse var c).0 ≡ ok tt
      → (w : W) × (call Request.status w ≡ (ok tt, (wait_for_rpc lib call parse var c).1.node))
  unfolding wait_for_rpc spawn_status ◌>>=◌ lift mapping_err
  waited_call parse var c h = from (timeout_secs parse var) h
    where
      from :
          (t : Result ℕ Error)
          → (continue t c (spawn_status lib call)).0 ≡ ok tt
          → (w : W) × (call Request.status w
              ≡ (ok tt, (continue t c (spawn_status lib call)).1.node))
      from (ok secs) h = answered secs c (map_err-ok _ _ h)
      from (err e) h = absurd (cc)

module _ (lib : RetryLib) {W : Type 0} (outside : Outside W) where
  -- A network is returned only by a connection to the address and with the key that were given, if its
  -- node has answered the last call that was made: the status.
  opened_answered :
      (rpc_url : String) (api_key : Option String) (info : String → Info) (w : W) (n : Network)
      → (opened lib outside rpc_url api_key info w).0 ≡ ok (some n)
      → (new_client lib outside rpc_url api_key ≡ ok n.rpc_client)
        × ((v : W) × (outside.call n.rpc_client Request.status v
              ≡ (ok tt, (opened lib outside rpc_url api_key info w).1)))
  unfolding opened waited network_at ◌>>=◌ lift pure
  opened_answered rpc_url api_key info w n h = from (new_client lib outside rpc_url api_key) h
    where
      named : JsonRpcClient → Result String BoxedError → NonceMap → Exec W (MayPanic Network) Error
      named client url nonces = pure (network_at lib outside client nonces info url)

      read :
          (client : JsonRpcClient) (r : Result (Unit {0}) Error) (c : Client W)
          (url : Result String BoxedError)
          → (r ≡ ok tt → (v : W) × (outside.call client Request.status v ≡ (ok tt, c.node)))
          → (continue (Result.map (λ u. c.access_key_nonces) r) c.node (named client url)).0
            ≡ ok (some n)
          → (client ≡ n.rpc_client)
            × ((v : W) × (outside.call n.rpc_client Request.status v ≡ (
              ok tt,
              (continue (Result.map (λ u. c.access_key_nonces) r) c.node (named client url)).1,
            )))
      read client (ok u) c (ok url) a h = with_same (same h)
        where
          same :
              {l : NonceMap} {i : Info} {m : JsonRpcClient}
              → ◌≡◌ {A = Result (MayPanic Network) Error}
                  (ok (some (record { rpc_client = m; access_key_nonces = l; info = i })))
                  (ok (some n))
              → m ≡ n.rpc_client
          same h = cc

          with_same :
              client ≡ n.rpc_client
              → (client ≡ n.rpc_client)
                × ((v : W) × (outside.call n.rpc_client Request.status v ≡ (ok tt, c.node)))
          with_same e = (e, rw (sym e) (a refl))
      read client (ok u) c (err e) a h = absurd (cc)
      read client (err x) c url a h = absurd (cc)

      from :
          (r : Result JsonRpcClient Error)
          → (continue r w
              (λ client. waited lib outside client >>= named client (outside.parse_url rpc_url))).0
            ≡ ok (some n)
          → (r ≡ ok n.rpc_client)
            × ((v : W) × (outside.call n.rpc_client Request.status v ≡ (
              ok tt,
              (continue r w (λ client.
                  waited lib outside client >>= named client (outside.parse_url rpc_url))).1,
            )))
      from (ok client) h = named_ok (
          read client _ _ (outside.parse_url rpc_url)
            (waited_call lib (outside.call client) outside.parse_usize outside.timeout_var _) h)
        where
          named_ok :
              {P : Type 0}
              → (client ≡ n.rpc_client) × P
              → (◌≡◌ {A = Result JsonRpcClient Error} (ok client) (ok n.rpc_client)) × P
          named_ok p = (ap ok p.0, p.1)
      from (err e) h = absurd (cc)
