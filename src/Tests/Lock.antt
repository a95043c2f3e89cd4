-- ===== src/Tests/Lock.antt =====
-- The locks of src/lib/automation/lock on a concrete history.
use provence.Prelude.{
  ℕ, ◌≡◌, ◌≢◌, ◌<◌, refl, [], ◌∷◌, List, String, true, false, some, inr, lookup, arith, eq_iff,
}
use provence.Automation.Lock.{lease}
use provence.Automation.Lock.Postgres.{postgres_lock_manager, postgres-IsLockManager, try_acquire}
use provence.Automation.Lock.Lease.{LockCall, acquire, free, run, lease_excludes}

a_not_b : ◌≢◌ {A = String} "a" "b"
a_not_b = ground (arith, eq_iff "a" "b")

abbrev others : List (LockCall × ℕ)
others = (acquire "k" "b" 50, 10) ∷ (free "k" "b", 20) ∷ []

lease_excludes_example :
    let locks =
      run postgres_lock_manager others (postgres_lock_manager.try_acquire "k" "a" 100 0 []).1 in
    (lookup "k" locks ≡ some (lease "a" 100))
    × (99 < 100 → postgres_lock_manager.try_acquire "k" "b" 50 99 locks ≡ (false, locks))
    × (100 < 99 → (postgres_lock_manager.try_acquire "k" "b" 50 99 locks).0 ≡ true)
unfolding postgres_lock_manager try_acquire lookup
lease_excludes_example =
    lease_excludes postgres_lock_manager postgres-IsLockManager "k" "a" "b" 100 0 99 50 others []
      refl ((inr a_not_b, omega arith), ((inr a_not_b, omega arith), tt)) a_not_b
