-- ===== src/Bridge/Node/Send/Direct.antt =====
-- src/network_bridge.cpp: `send_data` of a node without a fault engine, from the header on.
use av_hil_validation_platfo.Base.Double.{Double}
use av_hil_validation_platfo.Base.Lists.{length}
use av_hil_validation_platfo.Base.Memory.{load}
use av_hil_validation_platfo.Base.Tests.{Option-cases}
use av_hil_validation_platfo.Base.Text.{Text}
use av_hil_validation_platfo.Protocol.Frame.{control, flag_compressed, max_payload}
use av_hil_validation_platfo.Protocol.Codec.Layout.{frame, encode_frame_lem}
use av_hil_validation_platfo.Replay.Writer.{WalWriter, append}
use av_hil_validation_platfo.Faults.Engine.{Random, FaultEngine}
use av_hil_validation_platfo.Bridge.Header.{create_header}
use av_hil_validation_platfo.Bridge.Compression.{Zstd, compress}
use av_hil_validation_platfo.Bridge.Node.{NetworkBridge, write}
use av_hil_validation_platfo.Bridge.Node.Send.{Moment, send_message, hand_over, record_frame}
use av_hil_validation_platfo.Base.{
  ℕ, ◌+◌, ◌-◌, ◌%◌, ◌^◌, ◌≤◌, ◌≡◌, refl, ap, inl, inr, Option, none, some, List, [], ◌∷◌, ◌++◌,
}

module _ {D R P : Type 0} ⦃d : Double D⦄ where
  record_frame_lem :
      (now : Moment D) (l : List ℕ) (b : NetworkBridge D R P)
      → (w : Option WalWriter) × (record_frame now l b ≡ record b { wal_writer = w })
  unfolding record_frame
  record_frame_lem now l b = elim (Option-cases b.wal_writer) [
    | inl e ↦
        (none, rw (record_frame, e) (ap (λ (w : Option WalWriter). record b { wal_writer = w }) e))
    | inr (w, e) ↦ (
      some
          (append w now.timestamp_ns control ((b.tx_sequence + (2 ^ 64 - 1)) % 2 ^ 64) (load l)
            (length l) now.disk).1,
      rw (record_frame, e) refl,
    )
  ]

  module _ (random : Random D R) (clock : ℕ → D) where
    -- The frame is written at once.
    pub send_message_lem :
        (zstd : Zstd) (now : Moment D) (topic msg_type : Text) (level : ℕ) (content c : List ℕ)
        (b : NetworkBridge D R P)
        → compress zstd (create_header topic msg_type ++ content) level ≡ some c
        → length c ≤ max_payload
        → b.fault_engine ≡ none
        → (w : Option WalWriter) × (send_message random clock zstd now topic msg_type level content
              b
            ≡ record b {
              tx_sequence = (b.tx_sequence + 1) % 2 ^ 64;
              wal_writer = w;
              calls =
                  b.calls
                  ++ (write (
                        frame control b.tx_sequence now.timestamp_ns flag_compressed
                          (load c)
                          (length c))
                      ∷ []);
            })
    unfolding send_message
    send_message_lem zstd now topic msg_type level content c b packs small quiet =
        let enc =
          encode_frame_lem control b.tx_sequence now.timestamp_ns flag_compressed (load c)
            (length c) small in
        let logged =
          record_frame_lem now c (record b { tx_sequence = (b.tx_sequence + 1) % 2 ^ 64 }) in
        let f = frame control b.tx_sequence now.timestamp_ns flag_compressed (load c) (length c) in
        let sent : NetworkBridge D R P = record b {
          tx_sequence = (b.tx_sequence + 1) % 2 ^ 64;
          wal_writer = logged.0;
        } in
        (
          logged.0,
          rw (send_message, packs, enc, logged.1)
              (ap (λ (o : Option (FaultEngine D R)). hand_over random clock o now topic f sent)
                quiet),
        )
