-- ===== src/Automation/Lock/Memory.antt =====
-- src/lib/automation/lock/providers/memory-lock.ts
use provence.Prelude.{
  ℕ, ◌+◌, String, Bool, true, false, not, Option, none, some, [], ◌&&◌, lookup, insert, erase,
  lookup-insert_self, lookup-insert_ne, lookup-erase, ltb, if◌then◌else◌, str_eq, eq_iff, eq_refl,
  arith,
}
use provence.Automation.Lock.{Lock, Locks, lease, is_held_by, LockManager, IsLockManager}

-- `existing && existing.expiresAt > now && existing.holderId !== params.holderId`
abbrev pub is_refused : String → ℕ → Option Lock → Bool
is_refused holder now none = false
is_refused holder now (some lock) = ltb now lock.expires_at && not (str_eq lock.holder_id holder)

unfoldable pub try_acquire : String → String → ℕ → ℕ → Locks → Bool × Locks
try_acquire key holder lease_ms now locks =
    if is_refused holder now (lookup key locks)
    then (false, locks)
    else (true, insert key (lease holder (now + lease_ms)) locks)

unfoldable pub renew : String → String → ℕ → ℕ → Locks → Bool × Locks
renew key holder lease_ms now locks =
    if is_held_by holder (lookup key locks)
    then (true, insert key (lease holder (now + lease_ms)) locks)
    else (false, locks)

unfoldable pub release : String → String → Locks → Locks
release key holder locks = if is_held_by holder (lookup key locks) then erase key locks else locks

unfoldable pub clear : Locks → Locks
clear locks = []

unfoldable pub memory_lock_manager : LockManager
memory_lock_manager = record { try_acquire = try_acquire; renew = renew; release = release }

-- The in-memory manager fulfils the contract of `LockManager`, for leases that exclude the others
-- before their end and no longer at that instant: who is granted a lock, who is refused, what a
-- renewal answers, and what each operation leaves of the locks.
pub memory-IsLockManager : IsLockManager ltb memory_lock_manager
unfolding memory_lock_manager try_acquire renew release
memory-IsLockManager = record {
  live_before = λ now until lt. ground (arith, lt);
  over_after = λ now until lt. ground (arith, lt);
  acquire_grants = λ key holder lease_ms now locks h.
      ground (arith, lookup-insert_self key (lease holder (now + lease_ms)) locks);
  acquire_refused =
      λ key holder lease_ms now locks lock e ne l. ground (arith, l, eq_iff lock.holder_id holder);
  acquire_expired = λ key holder lease_ms now locks lock e over. ground (arith, over);
  acquire_free = λ key holder lease_ms now locks e. ground arith;
  acquire_again =
      λ key holder lease_ms now locks lock e same. ground (arith, eq_iff lock.holder_id holder);
  renew_extends = λ key holder lease_ms now locks lock e same. (
    ground (arith, eq_iff lock.holder_id holder),
    ground (
      arith,
      eq_iff lock.holder_id holder,
      lookup-insert_self key (lease holder (now + lease_ms)) locks,
    ),
  );
  renew_refused = λ key holder lease_ms now locks h. ground arith;
  release_frees = λ key holder locks lock e same.
      ground (arith, eq_iff lock.holder_id holder, eq_refl key, lookup-erase key key locks);
  release_refused = λ key holder locks h. ground arith;
  acquire_frame = λ key other holder lease_ms now locks ne.
      ground (arith, lookup-insert_ne key other (lease holder (now + lease_ms)) locks);
  renew_frame = λ key other holder lease_ms now locks ne.
      ground (arith, lookup-insert_ne key other (lease holder (now + lease_ms)) locks);
  release_frame =
      λ key other holder locks ne. ground (arith, eq_iff key other, lookup-erase key other locks);
}
