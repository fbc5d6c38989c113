-- ===== src/Op/Batch.antt =====
-- What op/batch_buffer.go calls a `Batch`, and the values of go-ethereum that it speaks of.
-- An address or a hash is the number that its bytes spell; the zero address is 0.
use espresso_streamers.Base.{ℕ, Option}

abbrev pub Hash : Type 0
Hash = ℕ

abbrev pub Address : Type 0
Address = ℕ

abbrev pub zero_address : Address
zero_address = 0

-- `eth.BlockID`.
pub record BlockId : Type 0 where
  pub hash : Hash
  pub number : ℕ

-- `types.Header`, the fields that the program reads; `number` is a `*big.Int`.
pub record Header : Type 0 where
  pub parent_hash : Hash
  pub number : Option ℕ
  pub time : ℕ

-- The interface `Batch`: what each of its methods returns for one value.
pub record Batch : Type 0 where
  pub number : ℕ
  pub l1_origin : BlockId
  pub header : Header
  pub hash : Hash
  pub signer : Address

-- `BatchValidity`.
pub data BatchValidity : Type 0 where
  drop accept undecided past : BatchValidity
