-- ===== src/Nitro/Streamer/Guarded.antt =====
-- Reading a transaction keeps the messages in the map of the nitro streamer authentic.
use espresso_streamers.Base.{
  ℕ, zero, suc, ◌+◌, ◌-◌, ◌≡◌, inl, inr, subst, ap, Option, some, All, arith, Option-cases,
}
use espresso_streamers.Nitro.Bytes.{Bytes}
use espresso_streamers.Nitro.Types.{MessageWithMetadataAndPos}
use espresso_streamers.Nitro.Codec.{Codec}
use espresso_streamers.Nitro.Monitor.{BatcherAddrMonitor, is_valid}
use espresso_streamers.Nitro.Payload.{
  MessageIterator, message_iterator, next_message, message_at, verify_signature,
}
use espresso_streamers.Nitro.Streamer.{EspressoClient, NitroStreamer, queue_message, queue_loop}
use espresso_streamers.Nitro.Streamer.Hotshot.{
  TransactionError, parse_espresso_transaction, message_count,
}
use espresso_streamers.Nitro.Streamer.Queue.{lowest}
use espresso_streamers.Nitro.Streamer.Store.{top, queue_message-returned}
use espresso_streamers.Nitro.Streamer.Reading.{
  Parsed, skipped, queued, parse_espresso_transaction-Parsed,
}
use espresso_streamers.Nitro.Streamer.Authentic.{
  IsAuthentic, Supplies, IsAuthentic-height, verified-Supplies,
}

module _ {e : EspressoClient} (c : Codec) (monitor : BatcherAddrMonitor) (namespace : ℕ) where
  -- The monitor and the namespace are the ones that the streamer was made with, and the messages are
  -- authentic for them.
  pub record IsGuarded (s : NitroStreamer e) : Type 0 where
    pub same_monitor : s.monitor ≡ monitor
    pub same_namespace : s.namespace ≡ namespace
    pub entries : All (IsAuthentic c (is_valid monitor) namespace) s.messages

  queue_message-IsGuarded :
      (s t : NitroStreamer e) (msg : MessageWithMetadataAndPos)
      → IsGuarded s
      → IsAuthentic c (is_valid monitor) namespace (msg.pos, msg)
      → queue_message s msg ≡ some t
      → IsGuarded t
  queue_message-IsGuarded s t msg g a r =
      let height = lowest s.messages (msg.pos + 1) (top s msg - msg.pos) msg.hotshot_height in
      queue_message-returned IsGuarded s t msg g
        (λ le fresh lt. record {
          same_monitor = g.same_monitor;
          same_namespace = g.same_namespace;
          entries =
              (IsAuthentic-height c (is_valid monitor) namespace msg.pos height msg a, g.entries);
        })
        r

  queue_loop-IsGuarded :
      (fuel : ℕ) (s t : NitroStreamer e) (it : MessageIterator)
      → IsGuarded s
      → Supplies c (is_valid monitor) namespace it.message
      → queue_loop fuel s it ≡ some t
      → IsGuarded t
  unfolding queue_loop next_message
  queue_loop-IsGuarded zero s t it g h r = cc
  queue_loop-IsGuarded (suc fuel) s t it g h r =
      elim (Option-cases (message_at it.message it.position s.next_hotshot_block_num)) [
        | inl f ↦ let q : t ≡ s = ground (arith, r, f) in rw q g
        | inr (msg, f) ↦ elim (Option-cases (queue_message s msg)) [
          | inl m ↦ absurd (ground (arith, r, f, m))
          | inr (u, m) ↦
              queue_loop-IsGuarded fuel u t (record it { position = it.position + 1 })
                (queue_message-IsGuarded s u msg g (h it.position s.next_hotshot_block_num msg f) m)
                h (ground (arith, r, f, m))
        ]
      ]

  Parsed-IsGuarded :
      (s t : NitroStreamer e) (tx : Bytes) (l1_height : ℕ)
      → IsGuarded s
      → Parsed c s tx l1_height t
      → IsGuarded t
  unfolding message_iterator
  Parsed-IsGuarded s t tx l1_height g (skipped r) = rw r g
  Parsed-IsGuarded s t tx l1_height g (queued message verified f v l) =
      let check = verify_signature c (is_valid s.monitor) s.namespace l1_height message in
      let h : Supplies c (is_valid s.monitor) s.namespace check.1 =
        verified-Supplies c (is_valid s.monitor) s.namespace tx message l1_height f
          (ap (λ r. r.0) v) in
      let h' : Supplies c (is_valid s.monitor) s.namespace verified =
        subst (λ m. Supplies c (is_valid s.monitor) s.namespace m) (ap (λ r. r.1) v) h in
      let h'' : Supplies c (is_valid monitor) namespace verified =
        subst (λ n. Supplies c (is_valid monitor) n verified) g.same_namespace
          (subst (λ b. Supplies c (is_valid b) s.namespace verified) g.same_monitor h') in
      queue_loop-IsGuarded (suc (message_count verified)) s t (message_iterator verified) g h'' l

  pub parse_espresso_transaction-IsGuarded :
      (s t : NitroStreamer e) (tx : Bytes) (l1_height : ℕ) (x : Option TransactionError)
      → IsGuarded s
      → parse_espresso_transaction c s tx l1_height ≡ some (x, t)
      → IsGuarded t
  parse_espresso_transaction-IsGuarded s t tx l1_height x g r =
      Parsed-IsGuarded s t tx l1_height g (parse_espresso_transaction-Parsed c s t tx l1_height x r)
