-- ===== src/Op/Derivation/Tests.antt =====
-- A concrete chain, and the theorems on batches there.
use espresso_streamers.Base.{
  ℕ, ◌≡◌, refl, true, false, Option, none, some, List, ◌==◌, [], ◌∷◌, ◌++◌, arith, ok, zero, suc,
}
use espresso_streamers.Op.Batch.{Hash}
use espresso_streamers.Op.Derivation.{
  Bytes, Chain, EspressoBatch, EspressoTransaction, unmarshal_espresso_transaction,
  to_espresso_transaction, SingularBatch, Block, to_block, body_to_block, decode_transactions,
  block_to_espresso_batch,
}
use espresso_streamers.Op.Derivation.Blocks.{
  Encodes, IsDerivation, block_to_espresso_batch-to_block,
}
use espresso_streamers.Op.Derivation.Laws.{
  IsFaithful, IsSigner, IsAnswerable, unmarshal-IsAnswerable, unmarshal-to_espresso_transaction,
}

-- A header is its number, a transaction its bytes; every signature is one of the key 9.
abbrev demo_chain : Chain
demo_chain = record {
  Header = ℕ;
  Transaction = Bytes;
  Config = Unit {0};
  PublicKey = ℕ;
  header_number = λ h. some h;
  header_hash = λ h. h;
  header_parent_hash = λ h. 0;
  header_time = λ h. 0;
  transaction_hash = λ t. 8;
  is_deposit_tx = λ t. true;
  transaction_data = λ t. t;
  unmarshal_binary = λ b. some b;
  keccak256 = λ b. 7;
  keccak256_hash = λ a b. 7;
  sig_to_pub = λ h s. some 9;
  pubkey_to_address = λ key. key;
  l1_block_info_from_bytes = λ cfg t b. some (1, 7);
}

abbrev zeros : ℕ → Bytes
zeros zero = []
zeros (suc n) = 0 ∷ zeros n

abbrev demo_batch : EspressoBatch demo_chain
demo_batch = record {
  batch_header = some 3;
  batch = record {
    parent_hash = 0;
    epoch_num = 1;
    epoch_hash = 7;
    timestamp = 0;
    transactions = [];
  };
  l1_info_deposit = some (2 ∷ []);
  signer_address = 9;
}

-- RLP and a signer for this one batch.
abbrev decode : Bytes → Option (EspressoBatch demo_chain)
decode bytes = some demo_batch

abbrev encode : EspressoBatch demo_chain → Option Bytes
encode b = some (1 ∷ [])

abbrev sign : Hash → Option Bytes
sign h = some (zeros 65)

demo_batch-IsFaithful : IsFaithful encode decode demo_batch
demo_batch-IsFaithful buf e = refl

sign-IsSigner : IsSigner demo_chain sign 9
sign-IsSigner h signature e = let f : signature ≡ zeros 65 = ground (arith, e) in rw f (refl, refl)

abbrev payload : Bytes
payload = zeros 65 ++ (1 ∷ [])

abbrev transaction : EspressoTransaction
transaction = record { namespace = 5; payload = payload }

payload_unmarshals : unmarshal_espresso_transaction decode payload ≡ ok demo_batch
unfolding unmarshal_espresso_transaction
payload_unmarshals = refl

transaction_made : to_espresso_transaction encode sign demo_batch 5 ≡ some transaction
unfolding to_espresso_transaction
transaction_made = refl

unmarshal-IsAnswerable_example : IsAnswerable payload demo_batch
unmarshal-IsAnswerable_example = unmarshal-IsAnswerable decode payload demo_batch payload_unmarshals

unmarshal-to_espresso_transaction_example :
    (transaction.namespace ≡ 5)
    × (unmarshal_espresso_transaction decode transaction.payload ≡ ok demo_batch)
unmarshal-to_espresso_transaction_example =
    unmarshal-to_espresso_transaction encode decode sign 9 demo_batch 5 transaction 3 3 (2 ∷ [])
      demo_batch-IsFaithful sign-IsSigner refl refl (omega arith) refl transaction_made

-- A chain on which a deposit begins with 2, and the derivation of its blocks.
abbrev block_chain : Chain
block_chain = record demo_chain { is_deposit_tx = λ t. elim t [ [] ↦ false | x ∷ xs ↦ x == 2 ] }

abbrev to_singular : block_chain.Config → Block block_chain → Option SingularBatch
to_singular cfg block = elim block.transactions [
  | [] ↦ none
  | deposit ∷ txs ↦
      some (record {
        parent_hash = 0;
        epoch_num = 1;
        epoch_hash = 7;
        timestamp = 0;
        transactions = txs;
      })
]

Encodes-same :
    (txs opaque : List Bytes) → Encodes block_chain (λ t. some t) txs opaque → txs ≡ opaque
Encodes-same [] [] h = refl
Encodes-same [] (o ∷ os) h = elim h [ ]
Encodes-same (t ∷ txs) [] h = elim h [ ]
Encodes-same (t ∷ txs) (o ∷ os) (e, n, h) = ground (arith, e, Encodes-same txs os h)

to_singular-IsDerivation : IsDerivation block_chain to_singular (λ t. some t) tt
to_singular-IsDerivation header deposit txs opaque l1_number l1_hash d e h =
    let same = Encodes-same txs opaque h in rw same (ground (arith, e))

abbrev block_batch : EspressoBatch block_chain
block_batch = record {
  batch_header = some 3;
  batch = record {
    parent_hash = 0;
    epoch_num = 1;
    epoch_hash = 7;
    timestamp = 0;
    transactions = (5 ∷ []) ∷ [];
  };
  l1_info_deposit = some (2 ∷ []);
  signer_address = 9;
}

abbrev block : Block block_chain
block = record { header = 3; transactions = (2 ∷ []) ∷ (5 ∷ []) ∷ [] }

block_made : to_block tt block_batch ≡ ok block
unfolding to_block body_to_block decode_transactions
block_made = refl

block_to_espresso_batch-to_block_example :
    block_to_espresso_batch to_singular tt block ≡ ok (record block_batch { signer_address = 0 })
block_to_espresso_batch-to_block_example =
    block_to_espresso_batch-to_block block_chain to_singular (λ t. some t) tt block_batch block
      to_singular-IsDerivation ((λ tx e. ground (arith, e)), tt) block_made
