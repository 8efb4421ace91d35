-- ===== src/Pyramid/Bank/Locks.antt =====
-- source/pyramid/abci/minibank/application.go: the locks on balances, and the reading and running
-- of a transaction. The decoder of the protobuf message is a parameter.
use urd_code.Prelude.{
  ℕ, ◌+◌, ◌*◌, Bool, true, false, not, Option, none, some, List, [], ◌∷◌, if◌then◌else◌, ltb, ◌==◌,
  length, drop,
}
use urd_code.Prelude.Bytes.{Bytes}
use urd_code.Prelude.Maps.{Map, lookup, contains, insert, erase}
use urd_code.Pyramid.Bank.Db.{Db}
use urd_code.Pyramid.Bank.Transfer.{TransferTx, TxError, decode_error, unknown_type, do_transfer}

unfoldable pub require_lock : Bytes → Map ℕ → Bool
unfolding lookup
require_lock key locked_keys = not (contains key locked_keys)

-- The result tells whether the lock was free.
unfoldable pub set_lock : Bytes → ℕ → Map ℕ → Bool × Map ℕ
unfolding lookup insert
set_lock key value locked_keys =
    if contains key locked_keys then (false, locked_keys) else (true, insert key value locked_keys)

-- The batch is the map that is written to, and `none` for a nil one.
unfoldable pub release_lock : Bytes → Option (Map ℕ) → Map ℕ → Option (Map ℕ) × Map ℕ
unfolding lookup insert erase
release_lock key batch locked_keys = elim (lookup key locked_keys) [
  | none ↦ (batch, locked_keys)
  | some value ↦
      (elim batch [ none ↦ none | some b ↦ some (insert key value b) ], erase key locked_keys)
]

unfoldable pub undo_lock : Bytes → Map ℕ → Map ℕ
unfolding erase
undo_lock key locked_keys = erase key locked_keys

-- `for _, key := range keys { set[key] = true }`
unfoldable pub add_keys : List Bytes → Map Bool → Map Bool
unfolding insert
add_keys [] s = s
add_keys (k ∷ ks) s = add_keys ks (insert k true s)

-- The read set is not written.
unfoldable pub append_rw_set : TransferTx → Map Bool × Map Bool → Map Bool × Map Bool
unfolding add_keys
append_rw_set tx (read_set, write_set) = (read_set, add_keys tx.to (add_keys tx.from write_set))

unfoldable pub get_rw_set : TransferTx → Map Bool × Map Bool
unfolding add_keys
get_rw_set tx = (add_keys tx.to (add_keys tx.from []), add_keys tx.to (add_keys tx.from []))

-- `for key := range set { if !app.requireLock(key) { return ... } }`, whether it runs through.
unfoldable pub all_unlocked : Map Bool → Map ℕ → Bool
unfolding require_lock
all_unlocked [] locked_keys = true
all_unlocked ((k, _) ∷ s) locked_keys =
    let rest = all_unlocked s locked_keys in if require_lock k locked_keys then rest else false

-- `BytesToUint32` of the first four bytes.
abbrev type_word : Bytes → ℕ
type_word (a ∷ b ∷ c ∷ d ∷ _) = a + 256 * b + 65536 * c + 16777216 * d
type_word _ = 0

-- The number of `definition.TxTransfer`.
abbrev pub tx_transfer : ℕ
tx_transfer = 12

module _ (decode : Bytes → Option TransferTx) where
  unfoldable pub unmarshal_transfer_tx : Bytes → Option TransferTx
  unmarshal_transfer_tx tx =
      if ltb (length tx) 4
      then none
      else if not (type_word tx == tx_transfer)
      then none
      else decode (drop 4 tx)

  unfoldable pub execute : {S : Type 0} → Db S → Map ℕ → Bytes → S → Option TxError × S
  unfolding do_transfer
  execute db locked_keys tx_bytes s =
      if ltb (length tx_bytes) 4
      then (some decode_error, s)
      else if type_word tx_bytes == tx_transfer
      then elim (decode (drop 4 tx_bytes)) [
        | none ↦ (some decode_error, s)
        | some tx ↦ do_transfer db locked_keys tx s
      ]
      else (some unknown_type, s)

  unfoldable pub check_lock : Map ℕ → Bytes → Bool
  unfolding unmarshal_transfer_tx get_rw_set all_unlocked
  check_lock locked_keys tx = elim (unmarshal_transfer_tx tx) [
    | none ↦ true
    | some ptx ↦
        if all_unlocked (get_rw_set ptx).0 locked_keys
        then all_unlocked (get_rw_set ptx).1 locked_keys
        else false
  ]
