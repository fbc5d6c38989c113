-- ===== src/Nitro/Demo/Faithful.antt =====
-- The concrete codec decodes what it encodes.
use espresso_streamers.Base.{ℕ, ◌≡◌, ◌<◌, refl, none, some, [], ◌∷◌, length, arith, Option}
use espresso_streamers.Nitro.Bytes.{Bytes}
use espresso_streamers.Nitro.Types.{L1IncomingMessage, MessageWithMetadata}
use espresso_streamers.Nitro.Demo.{demo_codec, encode, decode}
use espresso_streamers.Nitro.V0.RoundTrip.{IsFaithful}

decodes :
    (message : Option L1IncomingMessage) (n : ℕ) (b : Bytes)
    → encode (record { message = message; delayed_messages_read = n }) ≡ some b
    → (decode b ≡ some (record { message = message; delayed_messages_read = n })) × (0 < length b)
decodes (some x) n b e = absurd (ground (arith, e))
decodes none n b e = let f : b ≡ n ∷ [] = ground (arith, e) in rw f (refl, omega arith)

pub demo_codec-IsFaithful : (m : MessageWithMetadata) → IsFaithful demo_codec m
demo_codec-IsFaithful m b e = decodes m.message m.delayed_messages_read b e
