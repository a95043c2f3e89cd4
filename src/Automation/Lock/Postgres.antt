-- ===== src/Automation/Lock/Postgres.antt =====
-- src/lib/automation/lock/providers/postgres-lock.ts: each method is one SQL statement.
use provence.Prelude.{
  ℕ, ◌+◌, String, Bool, true, false, Option, none, some, ◌||◌, lookup, insert, erase,
  lookup-insert_self, lookup-insert_ne, lookup-erase, ltb, leb, if◌then◌else◌, str_eq, eq_iff,
  eq_refl, arith,
}
use provence.Automation.Lock.{Lock, Locks, lease, is_held_by, LockManager, IsLockManager}

-- `INSERT … ON CONFLICT DO UPDATE … WHERE expiresAt < now() OR holderId = …`: whether a row is
-- written, and so returned.
abbrev pub is_written : String → ℕ → Option Lock → Bool
is_written holder now none = true
is_written holder now (some lock) = ltb lock.expires_at now || str_eq lock.holder_id holder

unfoldable pub try_acquire : String → String → ℕ → ℕ → Locks → Bool × Locks
try_acquire key holder lease_ms now locks =
    if is_written holder now (lookup key locks)
    then (true, insert key (lease holder (now + lease_ms)) locks)
    else (false, locks)

unfoldable pub renew : String → String → ℕ → ℕ → Locks → Bool × Locks
renew key holder lease_ms now locks =
    if is_held_by holder (lookup key locks)
    then (true, insert key (lease holder (now + lease_ms)) locks)
    else (false, locks)

-- `deleteMany` with the key and the holder.
unfoldable pub release : String → String → Locks → Locks
release key holder locks = if is_held_by holder (lookup key locks) then erase key locks else locks

unfoldable pub postgres_lock_manager : LockManager
postgres_lock_manager = record { try_acquire = try_acquire; renew = renew; release = release }

-- The Postgres manager fulfils the contract of `LockManager` with the other reading of the end: a
-- lease still excludes the others at the instant at which it ends.
pub postgres-IsLockManager : IsLockManager leb postgres_lock_manager
unfolding postgres_lock_manager try_acquire renew release
postgres-IsLockManager = record {
  live_before = λ now until lt. ground (arith, lt);
  over_after = λ now until lt. ground (arith, lt);
  acquire_grants = λ key holder lease_ms now locks h.
      ground (arith, lookup-insert_self key (lease holder (now + lease_ms)) locks);
  acquire_refused =
      λ key holder lease_ms now locks lock e ne l. ground (arith, l, eq_iff lock.holder_id holder);
  acquire_expired = λ key holder lease_ms now locks lock e over. ground (arith, over);
  acquire_free = λ key holder lease_ms now locks e. ground arith;
  acquire_again =
      λ key holder lease_ms now locks lock e same. ground (arith, eq_iff lock.holder_id holder);
  renew_extends = λ key holder lease_ms now locks lock e same. (
    ground (arith, eq_iff lock.holder_id holder),
    ground (
      arith,
      eq_iff lock.holder_id holder,
      lookup-insert_self key (lease holder (now + lease_ms)) locks,
    ),
  );
  renew_refused = λ key holder lease_ms now locks h. ground arith;
  release_frees = λ key holder locks lock e same.
      ground (arith, eq_iff lock.holder_id holder, eq_refl key, lookup-erase key key locks);
  release_refused = λ key holder locks h. ground arith;
  acquire_frame = λ key other holder lease_ms now locks ne.
      ground (arith, lookup-insert_ne key other (lease holder (now + lease_ms)) locks);
  renew_frame = λ key other holder lease_ms now locks ne.
      ground (arith, lookup-insert_ne key other (lease holder (now + lease_ms)) locks);
  release_frame =
      λ key other holder locks ne. ground (arith, eq_iff key other, lookup-erase key other locks);
}
