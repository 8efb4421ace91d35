-- ===== src/Pyramid/Bank/Atomic.antt =====
-- source/pyramid/abci/minibank/application.go: `doTransfer` as a whole.
use urd_code.Prelude.{ap, ℕ, ◌+◌, ◌%◌, ◌^◌, ◌≡◌, true, Option, none, List, arith, length}
use urd_code.Prelude.Maps.{Map}
use urd_code.Pyramid.Bank.Db.{Db, Laws}
use urd_code.Pyramid.Bank.Transfer.{
  TransferTx, TxError, validate_transfer_tx, Outcome, read_from, read_to, write_all, do_transfer,
}
use urd_code.Pyramid.Bank.Conserve.{
  total, sum, are_distinct, are_apart, all_taken, balances, succeeds, sum_32-eq-sum,
  read_from-keeps, total-congr, read_from-debits, read_to-credits, write_all-succeeds,
  write_all-total, write_all-total_apart,
}

-- What the validation leaves.
validate_transfer_tx-none :
    (tx : TransferTx)
    → validate_transfer_tx tx ≡ none
    → (length tx.from ≡ length tx.from_money)
      × (length tx.to ≡ length tx.to_money)
      × (sum tx.from_money % 2 ^ 32 ≡ sum tx.to_money % 2 ^ 32)
unfolding validate_transfer_tx
validate_transfer_tx-none tx h =
    ground (
      arith,
      sum_32-eq-sum 0 tx.from_money (omega arith),
      sum_32-eq-sum 0 tx.to_money (omega arith),
    )

module _ {S : Type 0} (db : Db S) (laws : Laws db) (locked_keys : Map ℕ) where
  -- The states that a transfer passes through.
  abbrev read_1 : TransferTx → S → Outcome (List ℕ) × S
  read_1 tx s = read_from db locked_keys tx.from tx.from_money s

  abbrev read_2 : TransferTx → S → Outcome (List ℕ) × S
  read_2 tx s = read_to db locked_keys tx.to tx.to_money (read_1 tx s).1

  abbrev written_1 : TransferTx → S → Option TxError × S
  written_1 tx s = write_all db locked_keys tx.from (balances (read_1 tx s).0) (read_2 tx s).1

  abbrev written_2 : TransferTx → S → Option TxError × S
  written_2 tx s = write_all db locked_keys tx.to (balances (read_2 tx s).0) (written_1 tx s).1

  -- The reads go through.
  abbrev Reads : TransferTx → S → Type 0
  Reads tx s =
      (validate_transfer_tx tx ≡ none)
      × (succeeds (read_1 tx s).0 ≡ true)
      × (succeeds (read_2 tx s).0 ≡ true)

  -- After the reads, the writes go through too.
  do_transfer-Reads :
      (tx : TransferTx) (s : S)
      → all_taken laws.takes tx.from ≡ true
      → all_taken laws.takes tx.to ≡ true
      → Reads tx s
      → ((do_transfer db locked_keys tx s).0 ≡ none)
        × ((do_transfer db locked_keys tx s).1 ≡ (written_2 tx s).1)
  unfolding do_transfer
  do_transfer-Reads tx s k1 k2 (v, r1, r2) =
      let (same_from, same_to, sums) = validate_transfer_tx-none tx v in
      let (b1, l1, f1) =
        read_from-debits db laws locked_keys tx.from tx.from_money s k1 same_from r1 in
      let (b2, l2, f2) =
        read_to-credits db laws locked_keys tx.to tx.to_money (read_1 tx s).1 k2 same_to r2 in
      let w1 =
        write_all-succeeds db laws locked_keys tx.from (balances (read_1 tx s).0) (read_2 tx s).1 k1
          f1 in
      let w2 =
        write_all-succeeds db laws locked_keys tx.to (balances (read_2 tx s).0) (written_1 tx s).1
          k2 f2 in
      ground (arith)

  do_transfer-none :
      (tx : TransferTx) (s : S) → (do_transfer db locked_keys tx s).0 ≡ none → Reads tx s
  unfolding do_transfer
  do_transfer-none tx s h = ground arith

  -- A transfer that goes through, its keys being distinct and such as the store takes, leaves the sum of the balances of
  -- senders and receivers as it was, up to the wrap of uint32.
  pub do_transfer-conserves :
      (tx : TransferTx) (s : S)
      → all_taken laws.takes tx.from ≡ true
      → all_taken laws.takes tx.to ≡ true
      → are_distinct tx.from ≡ true
      → are_distinct tx.to ≡ true
      → are_apart tx.from tx.to ≡ true
      → (do_transfer db locked_keys tx s).0 ≡ none
      → (total (laws.view (do_transfer db locked_keys tx s).1) tx.from
            + total (laws.view (do_transfer db locked_keys tx s).1) tx.to)
          % 2 ^ 32
        ≡ (total (laws.view s) tx.from + total (laws.view s) tx.to) % 2 ^ 32
  do_transfer-conserves tx s k1 k2 d1 d2 a1 h =
      let (v, r1, r2) = do_transfer-none tx s h in
      let (_, ends) = do_transfer-Reads tx s k1 k2 (v, r1, r2) in
      let (same_from, same_to, sums) = validate_transfer_tx-none tx v in
      let (b1, l1, f1) =
        read_from-debits db laws locked_keys tx.from tx.from_money s k1 same_from r1 in
      let (b2, l2, f2) =
        read_to-credits db laws locked_keys tx.to tx.to_money (read_1 tx s).1 k2 same_to r2 in
      let t1 =
        write_all-total db laws locked_keys tx.from (balances (read_1 tx s).0) (read_2 tx s).1 k1 l1
          d1 f1 in
      let t2 =
        write_all-total db laws locked_keys tx.to (balances (read_2 tx s).0) (written_1 tx s).1 k2
          l2 d2 f2 in
      let t3 =
        write_all-total_apart db laws locked_keys tx.to tx.from (balances (read_2 tx s).0)
          (written_1 tx s).1 k2 a1 in
      let t4 =
        total-congr db laws locked_keys (laws.view (read_1 tx s).1) (laws.view s) tx.to
          (read_from-keeps db laws locked_keys tx.from tx.from_money s) in
      let e1 = ap (λ u. total (laws.view u) tx.from) ends in
      let e2 = ap (λ u. total (laws.view u) tx.to) ends in omega arith
