-- ===== src/Nitro/Streamer/Posted.antt =====
-- From `BuildRawHotShotPayload` and `SignHotShotPayload` to `GetMsg`.
use espresso_streamers.Base.{ℕ, ◌≡◌, ◌⊎◌, some}
use espresso_streamers.Nitro.Bytes.{Bytes}
use espresso_streamers.Nitro.Types.{MessageWithMetadata, MessageWithMetadataAndPos}
use espresso_streamers.Nitro.Codec.{Codec}
use espresso_streamers.Nitro.Streamer.{EspressoClient, NitroStreamer, get_msg}

module _ {e : EspressoClient} (c : Codec) (messages : ℕ → MessageWithMetadata) where
  -- After the payload was read the message of each of its positions that is not behind is kept.
  abbrev pub IsKept : NitroStreamer e → NitroStreamer e → ℕ → Type 0
  IsKept s t p =
      (y : MessageWithMetadataAndPos) × (get_msg t p ≡ some y)
      × ((get_msg s p ≡ some y) ⊎ (y.message_with_meta ≡ messages p))
