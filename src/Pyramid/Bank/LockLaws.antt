-- ===== src/Pyramid/Bank/LockLaws.antt =====
-- source/pyramid/abci/minibank/application.go: the loops over the locks of a cross-shard block.
use urd_code.Prelude.{
  ℕ, ◌≡◌, refl, Bool, true, false, ◌&&◌, Option, none, some, [], ◌∷◌, arith, if◌then◌else◌,
}
use urd_code.Prelude.Bytes.{Bytes, bytes_eq_iff}
use urd_code.Prelude.Maps.{Map, lookup, contains, insert, erase, lookup-insert, lookup-erase}
use urd_code.Pyramid.Bank.MemDb.{MemoryDb, get, view, view-get}
use urd_code.Pyramid.Bank.Locks.{set_lock, release_lock, undo_lock}
use urd_code.Pyramid.Bank.Blocks.{Env, lock_keys, release_keys, undo_keys}

-- The locks that `releaseLock` would find again.
abbrev pub taken : Bool → Option ℕ → Option ℕ → Option ℕ
taken true (some v) old = some v
taken true none old = old
taken false l old = old

abbrev or_zero : Option ℕ → ℕ
or_zero none = 0
or_zero (some v) = v

abbrev pub first_of : Option ℕ → Option ℕ → Option ℕ
first_of none o = o
first_of (some v) o = some v

module _ (env : Env) (chain : Bytes) where
  -- After the undo loop no key of the shard in the write set is locked, and the other locks stay.
  undo_keys-unlocks :
      (keys : Map Bool) (locked_keys : Map ℕ) (j : Bytes)
      → lookup j (undo_keys env chain keys locked_keys)
        ≡ (if contains j keys && env.search chain j then none else lookup j locked_keys)
  unfolding undo_keys undo_lock lookup
  undo_keys-unlocks [] locked_keys j = refl
  undo_keys-unlocks ((k, b) ∷ keys) locked_keys j = ground (
    arith,
    bytes_eq_iff k j,
    lookup-erase k j locked_keys,
    undo_keys-unlocks keys locked_keys j,
    undo_keys-unlocks keys (erase k locked_keys) j,
  )

  -- The release loop takes away the same locks, and the batch gets the value that each held.
  pub release_keys-writes :
      (keys : Map Bool) (batch locked_keys : Map ℕ) (j : Bytes)
      → (lookup j (release_keys env chain keys batch locked_keys).1
          ≡ (if contains j keys && env.search chain j then none else lookup j locked_keys))
        × (lookup j (release_keys env chain keys batch locked_keys).0
            ≡ taken (contains j keys && env.search chain j) (lookup j locked_keys) (lookup j batch))
  unfolding release_keys release_lock lookup
  release_keys-writes [] batch locked_keys j = (refl, refl)
  release_keys-writes ((k, b) ∷ keys) batch locked_keys j = ground (
    arith,
    bytes_eq_iff k j,
    lookup-erase k j locked_keys,
    lookup-insert k j (or_zero (lookup k locked_keys)) batch,
    release_keys-writes keys batch locked_keys j,
    release_keys-writes keys (insert k (or_zero (lookup k locked_keys)) batch) (erase k locked_keys)
        j,
  )

  -- The lock loop locks the keys of the shard in the write set that were free, each with the balance
  -- that is read, and leaves the locks that were there.
  lock_keys-locks :
      (keys : Map Bool) (m : MemoryDb) (locked_keys : Map ℕ) (j : Bytes)
      → lookup j (lock_keys env chain keys m locked_keys)
        ≡ first_of
            (lookup j locked_keys)
            (if contains j keys && env.search chain j then some (view m j) else none)
  unfolding lock_keys set_lock lookup view
  lock_keys-locks [] m locked_keys j = ground arith
  lock_keys-locks ((k, b) ∷ keys) m locked_keys j = ground (
    arith,
    bytes_eq_iff k j,
    lookup-insert k j (get k m).0 locked_keys,
    view-get k j m,
    lock_keys-locks keys m locked_keys j,
    lock_keys-locks keys (get k m).1 locked_keys j,
    lock_keys-locks keys (get k m).1 (insert k (get k m).0 locked_keys) j,
  )
