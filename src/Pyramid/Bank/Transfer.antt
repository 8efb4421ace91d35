-- ===== src/Pyramid/Bank/Transfer.antt =====
-- `ValidateTransferTx` of source/pyramid/abci/minibank/types.go and `doTransfer` of application.go.
use urd_code.Prelude.{
  ℕ, ◌+◌, ◌-◌, ◌%◌, ◌^◌, Bool, true, false, not, ◌||◌, Option, none, some, List, [], ◌∷◌,
  if◌then◌else◌, ltb, ◌==◌, length,
}
use urd_code.Prelude.Bytes.{Bytes}
use urd_code.Prelude.Maps.{Map, contains, lookup}
use urd_code.Pyramid.Bank.Db.{Db}
use urd_code.Pyramid.Bank.MemDb.{init_balance}

pub record TransferTx : Type 0 where
  pub from : List Bytes
  pub from_money : List ℕ
  pub to : List Bytes
  pub to_money : List ℕ

pub data TxError : Type 0 where
  lengths empty unbalanced locked not_enough store_error decode_error unknown_type : TxError

-- A uint32 sum, as the loops form it.
unfoldable pub sum_32 : ℕ → List ℕ → ℕ
sum_32 acc [] = acc
sum_32 acc (m ∷ ms) = sum_32 ((acc + m) % 2 ^ 32) ms

abbrev is_empty {ℓ} : {A : Type ℓ} → List A → Bool
is_empty [] = true
is_empty (_ ∷ _) = false

unfoldable pub validate_transfer_tx : TransferTx → Option TxError
unfolding sum_32
validate_transfer_tx tx =
    if not (length tx.from == length tx.from_money) || not (length tx.to == length tx.to_money)
    then some lengths
    else if is_empty tx.from || is_empty tx.to
    then some empty
    else if not (sum_32 0 tx.from_money == sum_32 0 tx.to_money)
    then some unbalanced
    else none

pub data Outcome (A : Type 0) : Type 0 where
  done : A → Outcome A
  fails : TxError → Outcome A

abbrev pub cons_balance : ℕ → Outcome (List ℕ) → Outcome (List ℕ)
cons_balance b (done bs) = done (b ∷ bs)
cons_balance b (fails e) = fails e

-- The new balance of a sender. A failed read takes the initial balance, with uint32 wrap.
abbrev pub debit : Option ℕ → ℕ → Outcome ℕ
debit none money = done ((init_balance + 2 ^ 32 - money) % 2 ^ 32)
debit (some balance) money = if ltb balance money then fails not_enough else done (balance - money)

abbrev pub credit : Option ℕ → ℕ → ℕ
credit none money = (init_balance + money) % 2 ^ 32
credit (some balance) money = (balance + money) % 2 ^ 32

module _ {S : Type 0} (db : Db S) (locked_keys : Map ℕ) where
  -- The loop that reads the senders. The lists have one length, by the validation.
  unfoldable pub read_from : List Bytes → List ℕ → S → Outcome (List ℕ) × S
  unfolding lookup
  read_from [] ms s = (done [], s)
  read_from (k ∷ ks) [] s = (done [], s)
  read_from (k ∷ ks) (m ∷ ms) s = elim (contains k locked_keys) [
    | true ↦ (fails locked, s)
    | false ↦
        let (balance, s') = db.get k s in
        elim (debit balance m) [
          | fails e ↦ (fails e, s')
          | done b ↦ let (rest, s'') = read_from ks ms s' in (cons_balance b rest, s'')
        ]
  ]

  -- The loop that reads the receivers.
  unfoldable pub read_to : List Bytes → List ℕ → S → Outcome (List ℕ) × S
  unfolding lookup
  read_to [] ms s = (done [], s)
  read_to (k ∷ ks) [] s = (done [], s)
  read_to (k ∷ ks) (m ∷ ms) s = elim (contains k locked_keys) [
    | true ↦ (fails locked, s)
    | false ↦
        let (balance, s') = db.get k s in
        let (rest, s'') = read_to ks ms s' in (cons_balance (credit balance m) rest, s'')
  ]

  -- The loops that write.
  unfoldable pub write_all : List Bytes → List ℕ → S → Option TxError × S
  unfolding lookup
  write_all [] bs s = (none, s)
  write_all (k ∷ ks) [] s = (none, s)
  write_all (k ∷ ks) (b ∷ bs) s = elim (contains k locked_keys) [
    | true ↦ (some locked, s)
    | false ↦ elim (db.set k b s) [ none ↦ (some store_error, s) | some s' ↦ write_all ks bs s' ]
  ]

  abbrev pub write_both : TransferTx → List ℕ → List ℕ → S → Option TxError × S
  write_both tx from_balance to_balance s =
      let (e, s') = write_all tx.from from_balance s in
      elim e [ some err ↦ (some err, s') | none ↦ write_all tx.to to_balance s' ]

  abbrev pub after_from : TransferTx → Outcome (List ℕ) → S → Option TxError × S
  after_from tx (fails e) s = (some e, s)
  after_from tx (done from_balance) s =
      let (r, s') = read_to tx.to tx.to_money s in
      elim r [ fails e ↦ (some e, s') | done to_balance ↦ write_both tx from_balance to_balance s' ]

  unfoldable pub do_transfer : TransferTx → S → Option TxError × S
  unfolding validate_transfer_tx read_from read_to write_all
  do_transfer tx s = elim (validate_transfer_tx tx) [
    | some e ↦ (some e, s)
    | none ↦ let (r, s') = read_from tx.from tx.from_money s in after_from tx r s'
  ]
