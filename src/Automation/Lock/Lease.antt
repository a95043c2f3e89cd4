-- ===== src/Automation/Lock/Lease.antt =====
-- What the holder of a lock may rely on, for every manager that fills the contract of
-- src/lib/automation/lock/types.ts.
use provence.Prelude.{
  Bool, ℕ, ◌+◌, ◌<◌, String, ◌≡◌, ◌≢◌, ◌⊎◌, inl, inr, ◌∙◌, true, false, some, List, [], ◌∷◌, lookup,
  All, str_eq, eq_iff, ap, arith, Bool-cases,
}
use provence.Automation.Lock.{Locks, lease, is_held_by, LockManager, IsLockManager}

pub data LockCall : Type 0 where
  acquire : String → String → ℕ → LockCall
  extend : String → String → ℕ → LockCall
  free : String → String → LockCall

abbrev pub key_of : LockCall → String
key_of (acquire key holder lease_ms) = key
key_of (extend key holder lease_ms) = key
key_of (free key holder) = key

abbrev pub holder_of : LockCall → String
holder_of (acquire key holder lease_ms) = holder
holder_of (extend key holder lease_ms) = holder
holder_of (free key holder) = holder

-- A call for another key or by another holder, made before `until`.
abbrev pub IsForeign : String → String → ℕ → LockCall × ℕ → Type 0
IsForeign key holder until (call, now) =
    ((key_of call ≢ key) ⊎ (holder ≢ holder_of call)) × (now < until)

module _ (m : LockManager) where
  unfoldable pub apply : LockCall → ℕ → Locks → Locks
  apply (acquire key holder lease_ms) now locks = (m.try_acquire key holder lease_ms now locks).1
  apply (extend key holder lease_ms) now locks = (m.renew key holder lease_ms now locks).1
  apply (free key holder) now locks = m.release key holder locks

  unfoldable pub run : List (LockCall × ℕ) → Locks → Locks
  run [] locks = locks
  run ((call, now) ∷ calls) locks = run calls (apply call now locks)

  module _ {live : ℕ → ℕ → Bool} (law : IsLockManager live m) (key holder : String)
      (until : ℕ) where
    -- By case on the key of a call: another key is not touched, and the calls of the contract that
    -- name the key refuse another holder.
    by_key :
        (k : String) (locks locks' : Locks)
        → (k ≢ key → lookup key locks' ≡ lookup key locks)
        → (k ≡ key → locks' ≡ locks)
        → lookup key locks' ≡ lookup key locks
    by_key k locks locks' frame refused = elim (Bool-cases (str_eq k key)) [
      | inl same ↦ ap (lookup key) (refused ((eq_iff k key).0 same))
      | inr other ↦ frame (λ e. ground (arith, eq_iff k key))
    ]

    not-held :
        (k other : String) (locks : Locks)
        → lookup key locks ≡ some (lease holder until)
        → holder ≢ other
        → k ≡ key
        → is_held_by other (lookup k locks) ≡ false
    not-held k other locks e ne same = rw (same, e) (ground (arith, eq_iff holder other))

    refused :
        (k h : String) (ms now : ℕ) (locks : Locks)
        → lookup key locks ≡ some (lease holder until)
        → holder ≢ h
        → now < until
        → k ≡ key
        → m.try_acquire k h ms now locks ≡ (false, locks)
    refused k h ms now locks e ne lt same =
        law.acquire_refused k h ms now locks (lease holder until) (rw same e) ne
          (law.live_before now until lt)

    apply-foreign :
        (call : LockCall) (now : ℕ) (locks : Locks)
        → lookup key locks ≡ some (lease holder until)
        → IsForeign key holder until (call, now)
        → lookup key (apply call now locks) ≡ lookup key locks
    unfolding apply
    apply-foreign (acquire k h ms) now locks e (inl ne, lt) =
        law.acquire_frame k key h ms now locks ne
    apply-foreign (acquire k h ms) now locks e (inr ne, lt) =
        by_key k locks _ (law.acquire_frame k key h ms now locks)
          (λ same. ap (λ r. r.1) (refused k h ms now locks e ne lt same))
    apply-foreign (extend k h ms) now locks e (inl ne, lt) = law.renew_frame k key h ms now locks ne
    apply-foreign (extend k h ms) now locks e (inr ne, lt) =
        by_key k locks _ (law.renew_frame k key h ms now locks) (λ same.
          ap (λ r. r.1) (law.renew_refused k h ms now locks (not-held k h locks e ne same)))
    apply-foreign (free k h) now locks e (inl ne, lt) = law.release_frame k key h locks ne
    apply-foreign (free k h) now locks e (inr ne, lt) =
        by_key k locks _ (law.release_frame k key h locks)
          (λ same. law.release_refused k h locks (not-held k h locks e ne same))

    run-foreign :
        (calls : List (LockCall × ℕ)) (locks : Locks)
        → lookup key locks ≡ some (lease holder until)
        → All (IsForeign key holder until) calls
        → lookup key (run calls locks) ≡ some (lease holder until)
    unfolding run
    run-foreign [] locks e h = e
    run-foreign ((call, now) ∷ calls) locks e (first, later) =
        run-foreign calls (apply call now locks) (apply-foreign call now locks e first ∙ e) later

  -- For any lock manager that fulfils the contract: once a holder has a lock, calls of others made
  -- before its lease ends, and calls for other keys, neither take the lock away nor prolong or free
  -- it. A different holder is then refused before that end, and gets the lock after it, even if the
  -- first never frees it.
  pub lease_excludes :
      {live : ℕ → ℕ → Bool} (law : IsLockManager live m) (key holder other : String)
      (lease_ms start now other_ms : ℕ) (calls : List (LockCall × ℕ)) (locks : Locks)
      → (m.try_acquire key holder lease_ms start locks).0 ≡ true
      → All (IsForeign key holder (start + lease_ms)) calls
      → holder ≢ other
      → let locks' = run calls (m.try_acquire key holder lease_ms start locks).1 in
        (lookup key locks' ≡ some (lease holder (start + lease_ms)))
        × (now < start + lease_ms → m.try_acquire key other other_ms now locks' ≡ (false, locks'))
        × (start + lease_ms < now → (m.try_acquire key other other_ms now locks').0 ≡ true)
  lease_excludes law key holder other lease_ms start now other_ms calls locks got foreign ne =
      let until = start + lease_ms in
      let held =
        run-foreign law key holder until calls _
          (law.acquire_grants key holder lease_ms start locks got) foreign in
      (
        held,
        λ lt.
            law.acquire_refused key other other_ms now _ (lease holder until) held ne
              (law.live_before now until lt),
        λ lt.
            law.acquire_expired key other other_ms now _ (lease holder until) held
              (law.over_after now until lt),
      )
