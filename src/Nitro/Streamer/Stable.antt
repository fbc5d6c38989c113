-- ===== src/Nitro/Streamer/Stable.antt =====
-- What the goroutine of the nitro streamer does leaves the messages in the map as they are.
use espresso_streamers.Base.{inl, inr, Option-cases, ℕ, suc, ◌≡◌, ◌∙◌, some, [], ◌∷◌, arith}
use espresso_streamers.Nitro.Bytes.{Bytes}
use espresso_streamers.Nitro.Types.{MessageWithMetadataAndPos}
use espresso_streamers.Nitro.Codec.{Codec}
use espresso_streamers.Nitro.Payload.{MessageIterator, message_iterator}
use espresso_streamers.Nitro.Streamer.{EspressoClient, NitroStreamer, lookup}
use espresso_streamers.Nitro.Streamer.Hotshot.{
  parse_espresso_transaction, fetch_blocks, message_count, jump,
}
use espresso_streamers.Nitro.Streamer.Outcome.{
  IsBounded, Outcome, failed, fetched, fetch_blocks-Outcome,
}
use espresso_streamers.Nitro.Streamer.Reading.{
  Parsed, skipped, queued, parse_espresso_transaction-Parsed,
}
use espresso_streamers.Nitro.Streamer.Delivery.{Found, as_before, stored_new, queue_loop-Looped}
use espresso_streamers.Nitro.Streamer.Interleave.{System, Round, idle, fetching, parsing, work}

module _ {e : EspressoClient} where
  still-Found :
      (s t : NitroStreamer e) (it : MessageIterator) (p : ℕ) (m : MessageWithMetadataAndPos)
      → Found s t it p
      → lookup p s.messages ≡ some m
      → lookup p t.messages ≡ some m
  still-Found s t it p m (as_before g) f = g ∙ f
  still-Found s t it p m (stored_new i x y n le at pos g meta) f = absurd (ground (arith, n, f))

  Parsed-lookup :
      (c : Codec) (s t : NitroStreamer e) (tx : Bytes) (l1_height p : ℕ)
      (m : MessageWithMetadataAndPos)
      → lookup p s.messages ≡ some m
      → Parsed c s tx l1_height t
      → lookup p t.messages ≡ some m
  Parsed-lookup c s t tx l1_height p m f (skipped r) = rw r f
  Parsed-lookup c s t tx l1_height p m f (queued message verified g v l) =
      let looped =
        queue_loop-Looped (suc (message_count verified)) s t (message_iterator verified) l in
      still-Found s t (message_iterator verified) p m (looped.found p) f

  fetch-messages :
      (c : Codec) (s : NitroStreamer e) (start : ℕ) (y : System e)
      → Outcome s start (fetch_blocks s start)
      → work c s (fetching start) ≡ some y
      → y.streamer.messages ≡ s.messages
  unfolding work
  fetch-messages c s start y (failed k x r) w = ground (arith, w, r)
  fetch-messages c s start y (fetched k f b r) w = ground (arith, w, r)

  jump-messages :
      (s : NitroStreamer e) (start to_block : ℕ) → (jump s start to_block).messages ≡ s.messages
  unfolding jump
  jump-messages s start to_block = ground arith

  -- The goroutine removes and replaces nothing.
  pub work-lookup :
      (c : Codec) (s : NitroStreamer e) (r : Round) (y : System e) (p : ℕ)
      (m : MessageWithMetadataAndPos)
      → IsBounded e
      → work c s r ≡ some y
      → lookup p s.messages ≡ some m
      → lookup p y.streamer.messages ≡ some m
  unfolding work
  work-lookup c s idle y p m bounded w f =
      let same : y.streamer ≡ s = ground (arith, w) in rw same f
  work-lookup c s (fetching start) y p m bounded w f =
      rw (fetch-messages c s start y (fetch_blocks-Outcome s start bounded) w) f
  work-lookup c s (parsing start to_block l1_height []) y p m bounded w f =
      let same : y.streamer.messages ≡ s.messages =
        ground (arith, w, jump-messages s start to_block) in
      rw same f
  work-lookup c s (parsing start to_block l1_height (tx ∷ txs)) y p m bounded w f =
      elim (Option-cases (parse_espresso_transaction c s tx l1_height)) [
        | inl g ↦ absurd (ground (arith, w, g))
        | inr ((x, t), g) ↦
            let same : y.streamer ≡ t = ground (arith, w, g) in
            rw same (
              Parsed-lookup c s t tx l1_height p m f
                (parse_espresso_transaction-Parsed c s t tx l1_height x g))
      ]
