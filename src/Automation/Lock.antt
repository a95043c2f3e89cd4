-- ===== src/Automation/Lock.antt =====
-- The contract of src/lib/automation/lock/types.ts. `Date.now()`, or `now()` of the database, is the
-- argument `now`; the table of locks is passed along.
pub mod Memory
pub mod Postgres
pub mod Lease
use provence.Prelude.{
  ℕ, ◌+◌, ◌<◌, String, ◌≡◌, ◌≢◌, Bool, true, false, Option, none, some, Map, lookup, str_eq,
}

pub record Lock : Type 0 where
  pub holder_id : String
  pub expires_at : ℕ

abbrev pub Locks : Type 0
Locks = Map Lock

abbrev pub lease : String → ℕ → Lock
lease holder until = record { holder_id = holder; expires_at = until }

abbrev pub is_held_by : String → Option Lock → Bool
is_held_by holder none = false
is_held_by holder (some lock) = str_eq lock.holder_id holder

-- The interface `LockManager`, as operations on the table of locks.
pub record LockManager : Type 0 where
  pub try_acquire : String → String → ℕ → ℕ → Locks → Bool × Locks
  pub renew : String → String → ℕ → ℕ → Locks → Bool × Locks
  pub release : String → String → Locks → Locks

-- What the comments of `LockManager` promise: a lease excludes the others until it ends, is idempotent
-- for its holder, and nobody prolongs or frees the lock of another. `live now until` says whether a
-- lease that ends at `until` still excludes the others at `now`; the comments leave open what holds at
-- `until` itself, where the providers differ.
pub record IsLockManager (live : ℕ → ℕ → Bool) (m : LockManager) : Type 0 where
  pub live_before : (now until : ℕ) → now < until → live now until ≡ true
  pub over_after : (now until : ℕ) → until < now → live now until ≡ false
  pub acquire_grants :
      (key holder : String) (lease_ms now : ℕ) (locks : Locks)
      → (m.try_acquire key holder lease_ms now locks).0 ≡ true
      → lookup key (m.try_acquire key holder lease_ms now locks).1
        ≡ some (lease holder (now + lease_ms))
  pub acquire_refused :
      (key holder : String) (lease_ms now : ℕ) (locks : Locks) (lock : Lock)
      → lookup key locks ≡ some lock
      → lock.holder_id ≢ holder
      → live now lock.expires_at ≡ true
      → m.try_acquire key holder lease_ms now locks ≡ (false, locks)
  pub acquire_expired :
      (key holder : String) (lease_ms now : ℕ) (locks : Locks) (lock : Lock)
      → lookup key locks ≡ some lock
      → live now lock.expires_at ≡ false
      → (m.try_acquire key holder lease_ms now locks).0 ≡ true
  pub acquire_free :
      (key holder : String) (lease_ms now : ℕ) (locks : Locks)
      → lookup key locks ≡ none
      → (m.try_acquire key holder lease_ms now locks).0 ≡ true
  pub acquire_again :
      (key holder : String) (lease_ms now : ℕ) (locks : Locks) (lock : Lock)
      → lookup key locks ≡ some lock
      → lock.holder_id ≡ holder
      → (m.try_acquire key holder lease_ms now locks).0 ≡ true
  pub renew_extends :
      (key holder : String) (lease_ms now : ℕ) (locks : Locks) (lock : Lock)
      → lookup key locks ≡ some lock
      → lock.holder_id ≡ holder
      → ((m.renew key holder lease_ms now locks).0 ≡ true)
        × (lookup key (m.renew key holder lease_ms now locks).1
            ≡ some (lease holder (now + lease_ms)))
  pub renew_refused :
      (key holder : String) (lease_ms now : ℕ) (locks : Locks)
      → is_held_by holder (lookup key locks) ≡ false
      → m.renew key holder lease_ms now locks ≡ (false, locks)
  pub release_frees :
      (key holder : String) (locks : Locks) (lock : Lock)
      → lookup key locks ≡ some lock
      → lock.holder_id ≡ holder
      → lookup key (m.release key holder locks) ≡ none
  pub release_refused :
      (key holder : String) (locks : Locks)
      → is_held_by holder (lookup key locks) ≡ false
      → m.release key holder locks ≡ locks
  pub acquire_frame :
      (key other holder : String) (lease_ms now : ℕ) (locks : Locks)
      → key ≢ other
      → lookup other (m.try_acquire key holder lease_ms now locks).1 ≡ lookup other locks
  pub renew_frame :
      (key other holder : String) (lease_ms now : ℕ) (locks : Locks)
      → key ≢ other
      → lookup other (m.renew key holder lease_ms now locks).1 ≡ lookup other locks
  pub release_frame :
      (key other holder : String) (locks : Locks)
      → key ≢ other
      → lookup other (m.release key holder locks) ≡ lookup other locks
