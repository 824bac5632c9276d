-- ===== src/Server/Locks.antt =====
-- Locking a port for the sandbox server, and releasing its locks (workspaces/src/network/server.rs).
use near_workspaces_rs.Prelude.{
  ℕ, zero, suc, ◌<◌, ◌≡◌, refl, none, some, arith, Option, String, ap, Bool, true, false,
  if◌then◌else◌,
}
use near_workspaces_rs.Result.{ok, ◌>>=◌, ◌>>◌, mapping_err, map_err-ok, bind_ok}
use near_workspaces_rs.Server.{
  System, Running, attempt, pick_unused_port, locked, acquire_unused_port, release, release_rpc,
  release_net, unlock_lockfiles,
}

module _ {W : Type 0} (os : System W) where
  -- The system offers the port, its lock file is made, and the lock is got or is found taken.
  pub record Offer (got : Bool) (w : W) (held : ℕ × ℕ) (end : W) : Type 0 where
    pub listener : ℕ
    pub bound : W
    pub found : W
    pub made : W
    pub binds : os.bind w ≡ (ok listener, bound)
    pub finds : os.local_port listener bound ≡ (ok held.0, found)
    pub makes : os.create_lockfile held.0 found ≡ (ok held.1, made)
    pub locks : os.try_lock_exclusive held.1 made ≡ (got, end)

  -- So many ports are offered, one after the other, whose locks are taken.
  abbrev pub Taken : ℕ → W → W → Type 0
  Taken zero w v = w ≡ v
  Taken (suc n) w v = (held : ℕ × ℕ) × (x : W) × Offer false w held x × Taken n x v

  attempt-Offer :
      (got : Bool) (w : W) (held : ℕ × ℕ) (end : W)
      → Offer got w held end
      → attempt os w ≡ (ok (if got then some held else none), end)
  unfolding attempt pick_unused_port locked mapping_err ◌>>=◌
  attempt-Offer got w held end o = rw (o.binds, o.finds, o.makes, o.locks) refl

  -- If the system offers `n` ports whose locks are taken, and then one whose lock it gets, then with
  -- fuel for more than `n` attempts that port is returned with its lock file, right after its lock
  -- was got.
  pub acquire_first_free :
      (n fuel : ℕ) (w v u : W) (held : ℕ × ℕ)
      → n < fuel
      → Taken n w v
      → Offer true v held u
      → acquire_unused_port os fuel w ≡ some (ok held, u)
  unfolding acquire_unused_port
  acquire_first_free n zero w v u held lt t o = elim lt [ ]
  acquire_first_free zero (suc fuel) w v u held lt t o = rw (t, attempt-Offer true v held u o) refl
  acquire_first_free (suc n) (suc fuel) w v u held lt (other, x, o, t) free =
      rw (attempt-Offer false w other x o)
        (acquire_first_free n fuel x v u held (omega arith) t free)

  -- After the locks have been released without an error, the server holds none, and releasing them
  -- again succeeds and does nothing: no lock is released twice.
  pub unlock_again :
      (s : Running W)
      → (unlock_lockfiles os s).0 ≡ ok tt
      → ((unlock_lockfiles os s).1.server.rpc_port_lock ≡ none)
        × ((unlock_lockfiles os s).1.server.net_port_lock ≡ none)
        × (unlock_lockfiles os (unlock_lockfiles os s).1 ≡ (ok tt, (unlock_lockfiles os s).1))
  unfolding unlock_lockfiles release_rpc release_net release ◌>>=◌ ◌>>◌
  unlock_again s h = ground arith

  -- What the system says of its locks: unlocking a file ends its lock, and takes no other.
  pub record Unlocking : Type 1 where
    pub Held : ℕ → W → Type 0
    pub ends : (l : ℕ) (w : W) → (os.unlock l w).0 ≡ ok tt → Held l (os.unlock l w).1 → ⊥
    pub takes_none : (l m : ℕ) (w : W) → Held m (os.unlock l w).1 → Held m w

module _ {W : Type 0} (os : System W) (unlocking : Unlocking os) where
  -- The lock in a field, if there was one, is held no longer.
  abbrev pub Freed : Option ℕ → W → Type 0
  Freed none w = Unit {0}
  Freed (some l) w = unlocking.Held l w → ⊥

  release_frees :
      (msg : String) (o : Option ℕ) (s : Running W)
      → (release os msg o s).0 ≡ ok tt
      → Freed o (release os msg o s).1.system
  unfolding release
  release_frees msg none s h = tt
  release_frees msg (some l) s h = unlocking.ends l s.system (map_err-ok _ _ h)

  release_keeps :
      (msg : String) (o p : Option ℕ) (s : Running W)
      → Freed p s.system
      → Freed p (release os msg o s).1.system
  unfolding release
  release_keeps msg none p s f = f
  release_keeps msg (some l) none s f = tt
  release_keeps msg (some l) (some m) s f = λ held. f (unlocking.takes_none l m s.system held)

  Freed-at : (o p : Option ℕ) (w : W) → o ≡ p → Freed o w → Freed p w
  Freed-at o p w e f = rw (← e) f

  release-server :
      (msg : String) (o : Option ℕ) (s : Running W) → (release os msg o s).1.server ≡ s.server
  unfolding release
  release-server msg none s = refl
  release-server msg (some l) s = refl

  -- After the locks have been released without an error, neither of them is held.
  pub unlocked_Freed :
      (s : Running W)
      → (unlock_lockfiles os s).0 ≡ ok tt
      → Freed s.server.rpc_port_lock (unlock_lockfiles os s).1.system
        × Freed s.server.net_port_lock (unlock_lockfiles os s).1.system
  unfolding unlock_lockfiles release_rpc release_net ◌>>◌
  unlocked_Freed s h =
      let (u, rpc, net, all) = bind_ok (release_rpc os) (λ _. release_net os) s h in
      let same : (release_rpc os s).1.server.net_port_lock ≡ s.server.net_port_lock =
        ap (λ x. x.net_port_lock)
          (release-server "failed to unlock lockfile for rpc_port" s.server.rpc_port_lock _) in
      rw all (
        release_keeps _ (release_rpc os s).1.server.net_port_lock s.server.rpc_port_lock _
            (release_frees _ s.server.rpc_port_lock _ rpc),
        Freed-at _ _ _ same (release_frees _ (release_rpc os s).1.server.net_port_lock _ net),
      )
