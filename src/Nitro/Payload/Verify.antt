-- ===== src/Nitro/Payload/Verify.antt =====
-- Which messages of version 1 are left after the verification.
use espresso_streamers.Base.{
  ℕ, ◌<◌, ◌≡◌, ◌↔◌, inl, inr, refl, Bool, true, Option, none, some, List, [], ◌∷◌, ◌==◌, length,
  All, arith, Option-cases, Bool-cases, Result, ok, err, ap,
}
use espresso_streamers.Op.Batch.{Hash, Address}
use espresso_streamers.Nitro.Types.{BroadcastFeedMessage}
use espresso_streamers.Nitro.Codec.{Codec}
use espresso_streamers.Nitro.Payload.{
  Payload, v1, VerifyError, sequencer_signature_and_hasher, verify_signer, verify_v1_message,
  filter_verified, verify_signature,
}

module _ (c : Codec) (is_valid : Address → ℕ → Bool) (chain_id l1_height : ℕ) where
  -- The chosen signature of the message is there and recovers, from the chosen hash, the key of an
  -- address that is valid at the height.
  pub record IsSigned (m : BroadcastFeedMessage) : Type 0 where
    pub hash : Hash
    pub key : c.PublicKey
    pub present : 0 < length (sequencer_signature_and_hasher c m).0
    pub hashed : (sequencer_signature_and_hasher c m).1 m chain_id ≡ ok hash
    pub recovered : c.sig_to_pub hash (sequencer_signature_and_hasher c m).0 ≡ some key
    pub registered : is_valid (c.pubkey_to_address key) l1_height ≡ true

  hashed_of_verified :
      (m : BroadcastFeedMessage) (r : Result VerifyError Hash)
      → (sequencer_signature_and_hasher c m).1 m chain_id ≡ r
      → verify_v1_message c is_valid chain_id l1_height m ≡ none
      → IsSigned m
  unfolding verify_v1_message verify_signer
  hashed_of_verified m (err x) h e =
      elim (Bool-cases (length (sequencer_signature_and_hasher c m).0 == 0)) [
        | inl t ↦ absurd (ground (arith, e, h, t))
        | inr t ↦ absurd (ground (arith, e, h, t))
      ]
  hashed_of_verified m (ok hash) h e =
      elim (Bool-cases (length (sequencer_signature_and_hasher c m).0 == 0)) [
        | inl t ↦ absurd (ground (arith, e, h, t))
        | inr t ↦ elim (Option-cases (c.sig_to_pub hash (sequencer_signature_and_hasher c m).0)) [
          | inl f ↦ absurd (ground (arith, e, h, t, f))
          | inr (key, f) ↦ elim (Bool-cases (is_valid (c.pubkey_to_address key) l1_height)) [
            | inl v ↦ record {
              hash = hash;
              key = key;
              present = ground (arith, t);
              hashed = h;
              recovered = f;
              registered = v;
            }
            | inr v ↦ absurd (ground (arith, e, h, t, f, v))
          ]
        ]
      ]

  verified_of_IsSigned :
      (m : BroadcastFeedMessage)
      → IsSigned m
      → verify_v1_message c is_valid chain_id l1_height m ≡ none
  unfolding verify_v1_message verify_signer
  verified_of_IsSigned m s = ground (arith, s.present, s.hashed, s.recovered, s.registered)

  -- A message of version 1 verifies exactly if it carries a signature from which, with the hash that
  -- goes with it, the key of an address is recovered that is valid at the height of the L1.
  pub verify_v1_message_iff :
      (m : BroadcastFeedMessage)
      → (verify_v1_message c is_valid chain_id l1_height m ≡ none) ↔ IsSigned m
  verify_v1_message_iff m = (
    hashed_of_verified m ((sequencer_signature_and_hasher c m).1 m chain_id) refl,
    verified_of_IsSigned m,
  )

  pub filter-IsSigned :
      (ms : List BroadcastFeedMessage)
      → All IsSigned (filter_verified c is_valid chain_id l1_height ms)
  unfolding filter_verified
  filter-IsSigned [] = tt
  filter-IsSigned (m ∷ ms) =
      elim (Option-cases (verify_v1_message c is_valid chain_id l1_height m)) [
        | inl e ↦
            let r : filter_verified c is_valid chain_id l1_height (m ∷ ms)
                ≡ m ∷ filter_verified c is_valid chain_id l1_height ms =
              ground (arith, e) in
            rw r ((verify_v1_message_iff m).0 e, filter-IsSigned ms)
        | inr (x, e) ↦
            let r : filter_verified c is_valid chain_id l1_height (m ∷ ms)
                ≡ filter_verified c is_valid chain_id l1_height ms =
              ground (arith, e) in
            rw r (filter-IsSigned ms)
      ]

  filter_of_IsSigned :
      (ms : List BroadcastFeedMessage)
      → All IsSigned ms
      → filter_verified c is_valid chain_id l1_height ms ≡ ms
  unfolding filter_verified
  filter_of_IsSigned [] h = refl
  filter_of_IsSigned (m ∷ ms) (s, h) =
      let e = verified_of_IsSigned m s in ground (arith, e, filter_of_IsSigned ms h)

  -- What is left of a version 1 payload after `VerifySignature`, which never fails on it.
  abbrev pub Verified : Option VerifyError × Payload → List BroadcastFeedMessage → Type 0
  Verified r kept = (r ≡ (none, v1 (record { messages = kept }))) × All IsSigned kept

  -- `VerifySignature` of a version 1 payload does not fail and leaves only messages that carry a
  -- signature of an address that is valid at the height; a second call leaves all of these.
  pub verify_signature-v1 :
      (ms : List BroadcastFeedMessage)
      → (kept : List BroadcastFeedMessage) × Verified
          (verify_signature c is_valid chain_id l1_height (v1 (record { messages = ms })))
          kept
        × Verified
            (verify_signature c is_valid chain_id l1_height (v1 (record { messages = kept })))
            kept
  unfolding verify_signature
  verify_signature-v1 ms =
      let kept = filter_verified c is_valid chain_id l1_height ms in
      let signed = filter-IsSigned ms in
      (
        kept,
        (refl, signed),
        (ap (λ xs. (none, v1 (record { messages = xs }))) (filter_of_IsSigned kept signed), signed),
      )
