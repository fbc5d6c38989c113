-- ===== src/Op/Derivation/Laws.antt =====
-- What is unmarshaled can be asked for its number and its hash, and conversions go back and forth.
use espresso_streamers.Base.{
  ℕ, ◌+◌, ◌^◌, ◌<◌, ◌≡◌, inl, inr, refl, true, false, Option, some, ◌++◌, ltb, length, take, drop,
  ok, arith, Option-cases, Bool-cases, lt→ltb, take-append, drop-append, length-append,
}
use espresso_streamers.Op.Batch.{Hash}
use espresso_streamers.Op.Derivation.{
  Bytes, Chain, EspressoBatch, EspressoTransaction, signature_length, number, hash,
  to_espresso_transaction, unmarshal_espresso_transaction,
}

-- The signer's signatures have 65 bytes and recover its key.
abbrev pub IsSigner : (k : Chain) → (Hash → Option Bytes) → k.PublicKey → Type 0
IsSigner k sign key =
    (h : Hash) (signature : Bytes)
    → sign h ≡ some signature
    → (length signature ≡ signature_length) × (k.sig_to_pub h signature ≡ some key)

not_short : (n m : ℕ) → n ≡ signature_length + m → ltb n signature_length ≡ false
not_short n m e = ground (arith, e)

module _ {k : Chain} where
  -- What `CheckBatch` and the buffer ask a batch for is there: a number, which is the header's, not
  -- cut off, and a hash; and the signer is recovered from the bytes.
  pub record IsAnswerable (bytes : Bytes) (b : EspressoBatch k) : Type 0 where
    pub header : k.Header
    pub header_at : b.batch_header ≡ some header
    pub n : ℕ
    pub exact : k.header_number header ≡ some n
    pub answers : number b ≡ some n
    pub small : n < 2 ^ 64
    pub digest : Hash
    pub hashed : hash b ≡ some digest
    pub key : k.PublicKey
    pub recovered :
        k.sig_to_pub (k.keccak256 (drop signature_length bytes)) (take signature_length bytes)
        ≡ some key
    pub signed_by : b.signer_address ≡ k.pubkey_to_address key

  answers_of_decoded :
      (decode : Bytes → Option (EspressoBatch k)) (bytes : Bytes) (b c : EspressoBatch k)
      (key : k.PublicKey)
      → unmarshal_espresso_transaction decode bytes ≡ ok b
      → ltb (length bytes) signature_length ≡ false
      → k.sig_to_pub (k.keccak256 (drop signature_length bytes)) (take signature_length bytes)
        ≡ some key
      → decode (drop signature_length bytes) ≡ some c
      → IsAnswerable bytes b
  unfolding unmarshal_espresso_transaction number hash
  answers_of_decoded decode bytes b c key e t f g = elim (Option-cases c.batch_header) [
    | inl h ↦ absurd (ground (arith, e, t, f, g, h))
    | inr (header, h) ↦ elim (Option-cases (k.header_number header)) [
      | inl n ↦ absurd (ground (arith, e, t, f, g, h, n))
      | inr (n, m) ↦ elim (Bool-cases (ltb n (2 ^ 64))) [
        | inr s ↦ absurd (ground (arith, e, t, f, g, h, m, s))
        | inl s ↦ elim (Option-cases c.l1_info_deposit) [
          | inl x ↦ absurd (ground (arith, e, t, f, g, h, m, s, x))
          | inr (tx, x) ↦
              let same : b ≡ record c { signer_address = k.pubkey_to_address key } =
                ground (arith, e, t, f, g, h, m, s, x) in
              rw same (record {
                header = header;
                header_at = h;
                n = n;
                exact = m;
                answers = ground (arith, h, m, s);
                small = ground (arith, s);
                digest = k.keccak256_hash (k.header_hash header) (k.transaction_hash tx);
                hashed = ground (arith, h, x);
                key = key;
                recovered = f;
                signed_by = refl;
              })
        ]
      ]
    ]
  ]

  -- A batch that `UnmarshalEspressoTransaction` returns, whoever posted the bytes, has a number that
  -- is the header's and fits in 64 bits, a hash, and the signer that its signature recovers.
  pub unmarshal-IsAnswerable :
      (decode : Bytes → Option (EspressoBatch k)) (bytes : Bytes) (b : EspressoBatch k)
      → unmarshal_espresso_transaction decode bytes ≡ ok b
      → IsAnswerable bytes b
  unfolding unmarshal_espresso_transaction number hash
  unmarshal-IsAnswerable decode bytes b e =
      elim (Bool-cases (ltb (length bytes) signature_length)) [
        | inl t ↦ absurd (ground (arith, e, t))
        | inr t ↦
            elim (Option-cases (
              k.sig_to_pub (k.keccak256 (drop signature_length bytes))
                (take signature_length bytes))) [
                  | inl f ↦ absurd (ground (arith, e, t, f))
                  | inr (key, f) ↦ elim (Option-cases (decode (drop signature_length bytes))) [
                    | inl g ↦ absurd (ground (arith, e, t, f, g))
                    | inr (c, g) ↦ answers_of_decoded decode bytes b c key e t f g
                  ]
                ]
      ]

  unmarshal_of_parts :
      (decode : Bytes → Option (EspressoBatch k)) (bytes : Bytes) (b : EspressoBatch k)
      (header : k.Header) (n : ℕ) (deposit : k.Transaction) (key : k.PublicKey)
      → ltb (length bytes) signature_length ≡ false
      → k.sig_to_pub (k.keccak256 (drop signature_length bytes)) (take signature_length bytes)
        ≡ some key
      → decode (drop signature_length bytes) ≡ some b
      → b.batch_header ≡ some header
      → k.header_number header ≡ some n
      → ltb n (2 ^ 64) ≡ true
      → b.l1_info_deposit ≡ some deposit
      → unmarshal_espresso_transaction decode bytes
        ≡ ok (record b { signer_address = k.pubkey_to_address key })
  unfolding unmarshal_espresso_transaction
  unmarshal_of_parts decode bytes b header n deposit key t r d h m small x =
      ground (arith, t, r, d, h, m, small, x)

  parts_of_payload :
      (decode : Bytes → Option (EspressoBatch k)) (signature buf : Bytes) (b : EspressoBatch k)
      (header : k.Header) (n : ℕ) (deposit : k.Transaction) (key : k.PublicKey)
      → length signature ≡ signature_length
      → k.sig_to_pub (k.keccak256 buf) signature ≡ some key
      → decode buf ≡ some b
      → b.batch_header ≡ some header
      → k.header_number header ≡ some n
      → n < 2 ^ 64
      → b.l1_info_deposit ≡ some deposit
      → unmarshal_espresso_transaction decode (signature ++ buf)
        ≡ ok (record b { signer_address = k.pubkey_to_address key })
  parts_of_payload decode signature buf b header n deposit key size r d h m small x =
      let front : take signature_length (signature ++ buf) ≡ signature =
        rw size at (take-append signature buf) in
      let back : drop signature_length (signature ++ buf) ≡ buf =
        rw size at (drop-append signature buf) in
      let whole : length (signature ++ buf) ≡ signature_length + length buf =
        ground (arith, length-append signature buf, size) in
      let recovered : k.sig_to_pub (k.keccak256 (drop signature_length (signature ++ buf)))
            (take signature_length (signature ++ buf))
          ≡ some key =
        rw (front, back) r in
      let decoded : decode (drop signature_length (signature ++ buf)) ≡ some b = rw back d in
      let long : ltb (length (signature ++ buf)) signature_length ≡ false =
        not_short _ (length buf) whole in
      let fits : ltb n (2 ^ 64) ≡ true = lt→ltb n (2 ^ 64) small in
      unmarshal_of_parts decode (signature ++ buf) b header n deposit key long recovered decoded h m
        fits x

  -- RLP decodes what it encodes for the batch.
  abbrev pub IsFaithful :
      (EspressoBatch k → Option Bytes)
      → (Bytes → Option (EspressoBatch k))
      → EspressoBatch k
      → Type 0
  IsFaithful encode decode b = (buf : Bytes) → encode b ≡ some buf → decode buf ≡ some b

  -- Let RLP decode what it encodes for a batch, and the signer's signatures have 65 bytes and recover its key.
  -- The transaction that `ToEspressoTransaction` makes of the batch with a header number below 2^64
  -- and a deposit is in the namespace given and unmarshals to the batch, with the signer's address.
  pub unmarshal-to_espresso_transaction :
      (encode : EspressoBatch k → Option Bytes) (decode : Bytes → Option (EspressoBatch k))
      (sign : Hash → Option Bytes) (key : k.PublicKey) (b : EspressoBatch k) (namespace : ℕ)
      (t : EspressoTransaction) (header : k.Header) (n : ℕ) (deposit : k.Transaction)
      → IsFaithful encode decode b
      → IsSigner k sign key
      → b.batch_header ≡ some header
      → k.header_number header ≡ some n
      → n < 2 ^ 64
      → b.l1_info_deposit ≡ some deposit
      → to_espresso_transaction encode sign b namespace ≡ some t
      → (t.namespace ≡ namespace)
        × (unmarshal_espresso_transaction decode t.payload
            ≡ ok (record b { signer_address = k.pubkey_to_address key }))
  unfolding to_espresso_transaction
  unmarshal-to_espresso_transaction encode decode sign key b namespace t header n deposit faithful
        signer h m small x e =
      elim (Option-cases (encode b)) [
        | inl f ↦ absurd (ground (arith, e, f))
        | inr (buf, f) ↦ elim (Option-cases (sign (k.keccak256 buf))) [
          | inl g ↦ absurd (ground (arith, e, f, g))
          | inr (signature, g) ↦
              let (size, r) = signer (k.keccak256 buf) signature g in
              let same : t ≡ record { namespace = namespace; payload = signature ++ buf } =
                ground (arith, e, f, g) in
              rw same (
                refl,
                parts_of_payload decode signature buf b header n deposit key size r (faithful buf f)
                    h m small x,
              )
        ]
      ]
