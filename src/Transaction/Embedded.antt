-- ===== src/Transaction/Embedded.antt =====
-- Transactions that create a contract from code with its arguments behind it
-- (durian/src/transaction.rs).
use durian.Base.{
  ℕ, ◌≡◌, ◌++◌, arith, length, length-append, take-append_self, drop-append_self, Bytes,
}
use durian.Exec.{ok}
use durian.Types.{Address, H256}
use durian.Transaction.{make_create_embedded_code, make_create}

-- Where the measured size is that of the code in front, the code and the arguments behind it come
-- apart, and the transaction is the one that `make_create` makes of the two.
pub make_create_embedded_code-make_create :
    (peek_size : Bytes → ℕ) (sender : Address) (value gas gas_price : ℕ) (code args : Bytes)
    (salt : H256)
    → peek_size (code ++ args) ≡ length code
    → make_create_embedded_code peek_size sender value gas gas_price (code ++ args) salt
      ≡ ok (make_create sender value gas gas_price code args salt)
unfolding make_create_embedded_code make_create
make_create_embedded_code-make_create peek_size sender value gas gas_price code args salt h = rw h (
    ground (arith, length-append code args, take-append_self code args, drop-append_self code args))
