-- ===== src/Bridge/Node/Link.antt =====
-- src/network_bridge.cpp: one bridge that sends and another that receives, over a link that keeps order.
use av_hil_validation_platfo.Base.Double.{Double}
use av_hil_validation_platfo.Base.Lists.{length, length-append, drop-append}
use av_hil_validation_platfo.Base.Memory.{load, bytes_from}
use av_hil_validation_platfo.Base.Tests.{ltb_of_le}
use av_hil_validation_platfo.Base.Text.{Text, is_empty}
use av_hil_validation_platfo.Protocol.Frame.{
  FrameError, FrameHeader, ok, control, flag_compressed, max_payload,
}
use av_hil_validation_platfo.Protocol.Codec.Layout.{frame}
use av_hil_validation_platfo.Protocol.Codec.RoundTrip.{IsSendable, sent_header}
use av_hil_validation_platfo.Protocol.Decoder.{FrameDecoder}
use av_hil_validation_platfo.Protocol.Decoder.Delivery.{NotAhead, after_frame, decode-frame}
use av_hil_validation_platfo.Faults.Engine.{Random}
use av_hil_validation_platfo.Bridge.Header.{create_header}
use av_hil_validation_platfo.Bridge.Header.RoundTrip.{NoNull, parse_header-create_header}
use av_hil_validation_platfo.Bridge.Compression.{
  Zstd, RestoresContent, compress, decompress-compress,
}
use av_hil_validation_platfo.Bridge.Node.{
  NetworkBridge, InterfaceCall, write, publish, receive_message, receive_frame, receive_data,
}
use av_hil_validation_platfo.Bridge.Node.Publishing.{AllNamed, seen, Published, publish_lem}
use av_hil_validation_platfo.Bridge.Node.Send.{Moment, send_message}
use av_hil_validation_platfo.Bridge.Node.Send.Direct.{send_message_lem}
use av_hil_validation_platfo.Base.{
  ℕ, ◌+◌, ◌^◌, ◌≤◌, ◌<◌, ◌≡◌, refl, ap, sym, ◌∙◌, true, false, none, some, List, [], ◌∷◌, ◌++◌, map,
  append-nil, append_assoc, arith,
}

-- A message that a manager hands over, and when.
pub record Message (D : Type 0) : Type 0 where
  pub topic : Text
  pub msg_type : Text
  pub level : ℕ
  pub content : List ℕ
  pub now : Moment D

-- It has a topic and a type that the header can carry, and zstd fits it into a frame.
pub record IsCarried (zstd : Zstd) (topic msg_type : Text) (level : ℕ) (content : List ℕ)
    (timestamp_ns : ℕ) : Type 0 where
  pub topic_text : NoNull topic
  pub type_text : NoNull msg_type
  pub topic_size : 0 < length topic
  pub type_size : 0 < length msg_type
  pub timestamp_fits : timestamp_ns < 2 ^ 64
  pub compressed : List ℕ
  pub compresses : compress zstd (create_header topic msg_type ++ content) level ≡ some compressed
  pub within_limit : length compressed ≤ max_payload

module _ {D : Type 0} where
  abbrev pub AllCarried : Zstd → List (Message D) → Type 0
  AllCarried zstd [] = Unit
  AllCarried zstd (m ∷ ms) =
      IsCarried zstd m.topic m.msg_type m.level m.content m.now.timestamp_ns × AllCarried zstd ms

  -- The clock does not go back.
  abbrev pub IsRising : ℕ → List (Message D) → Type 0
  IsRising t [] = Unit
  IsRising t (m ∷ ms) = (t ≤ m.now.timestamp_ns) × IsRising m.now.timestamp_ns ms

  abbrev pub expected : Text → Message D → Text × List ℕ
  expected ns m = (ns ++ m.topic, m.content)

module _ (zstd : Zstd) (sequence : ℕ) (topic msg_type : Text) (level : ℕ) (content : List ℕ)
    (timestamp_ns : ℕ) (c : IsCarried zstd topic msg_type level content timestamp_ns) where
  sendable :
      sequence < 2 ^ 64
      → IsSendable control sequence timestamp_ns flag_compressed (length c.compressed)
  sendable fits = record {
    sensor = _;
    sequence_fits = fits;
    timestamp_fits = c.timestamp_fits;
    flags_fit = omega arith;
    within_limit = c.within_limit;
  }

  abbrev pub wire : List ℕ
  wire =
      frame control sequence timestamp_ns flag_compressed (load c.compressed) (length c.compressed)

module _ {D R P : Type 0} where
  receive_message_lem :
      (topic msg_type : Text) (content : List ℕ) (b : NetworkBridge D R P)
      → NoNull topic
      → NoNull msg_type
      → 0 < length topic
      → 0 < length msg_type
      → receive_message true (create_header topic msg_type ++ content) b
        ≡ publish true topic msg_type content b
  unfolding receive_message
  receive_message_lem topic msg_type content b nt nm lt lm =
      let back = parse_header-create_header topic msg_type [] [] content nt nm lt lm in
      let head = create_header topic msg_type in
      rw
        (
          back.0,
          is_empty_of topic lt,
          is_empty_of msg_type lm,
          ltb_of_le (length (head ++ content)) (length topic + 1 + length msg_type + 1)
              (omega (arith, back.1, length-append head content)),
          drop-append head content (length topic + 1 + length msg_type + 1) (sym back.1),
        )
        refl
    where
      is_empty_of : (t : Text) → 0 < length t → is_empty t ≡ false
      is_empty_of [] h = absurd (omega (arith, h))
      is_empty_of (c ∷ t) h = refl

  abbrev pub receive_all : Zstd → List (List ℕ) → NetworkBridge D R P → NetworkBridge D R P
  receive_all zstd [] r = r
  receive_all zstd (f ∷ fs) r = receive_all zstd fs (receive_data zstd true true f r)

  module _ (zstd : Zstd) (sequence : ℕ) (topic msg_type : Text) (level : ℕ) (content : List ℕ)
      (timestamp_ns : ℕ) (c : IsCarried zstd topic msg_type level content timestamp_ns) where
    abbrev decoded : NetworkBridge D R P → NetworkBridge D R P
    decoded r = record r { frame_decoder = after_frame r.frame_decoder 0 sequence timestamp_ns }

    receive_frame_lem :
        (bytes : List ℕ) (r : NetworkBridge D R P)
        → RestoresContent zstd
        → bytes_from (load bytes) 40 (length c.compressed) ≡ c.compressed
        → receive_frame zstd true bytes
            (
              ok,
              sent_header control sequence timestamp_ns flag_compressed
                  (load c.compressed)
                  (length c.compressed),
              after_frame r.frame_decoder 0 sequence timestamp_ns,
            )
            r
          ≡ publish true topic msg_type content (decoded r)
    unfolding receive_frame
    receive_frame_lem bytes r law whole =
        rw
          (
            whole,
            decompress-compress zstd (create_header topic msg_type ++ content) c.compressed level
                law c.compresses,
          )
          (receive_message_lem topic msg_type content (decoded r) c.topic_text c.type_text
            c.topic_size c.type_size)

    receive_data_lem :
        RestoresContent zstd
        → sequence < 2 ^ 64
        → (r : NetworkBridge D R P) → NotAhead r.frame_decoder 0 sequence timestamp_ns
        → receive_data zstd true true
            (wire zstd sequence topic msg_type level content timestamp_ns c)
            r
          ≡ publish true topic msg_type content (decoded r)
    unfolding receive_data
    receive_data_lem law fits r n =
        let f = wire zstd sequence topic msg_type level content timestamp_ns c in
        let (dec, whole, enc) =
          decode-frame control sequence timestamp_ns flag_compressed c.compressed r.frame_decoder 0
            (sendable zstd sequence topic msg_type level content timestamp_ns c fits) n in
        ap (λ (v : FrameError × FrameHeader × FrameDecoder). receive_frame zstd true f v r) dec
        ∙ receive_frame_lem f r law whole

    -- Receiving the frame publishes the message.
    receive_data-Published :
        (r : NetworkBridge D R P)
        → RestoresContent zstd
        → sequence < 2 ^ 64
        → NotAhead r.frame_decoder 0 sequence timestamp_ns
        → AllNamed r.publish_namespace r.publishers
        → Published topic content (decoded r) (
            receive_data zstd true true
              (wire zstd sequence topic msg_type level content timestamp_ns c)
              r)
    receive_data-Published r law fits n named =
        rw (receive_data_lem law fits r n) (publish_lem topic msg_type content (decoded r) named)

module _ {D R P : Type 0} ⦃d : Double D⦄ (random : Random D R) (clock : ℕ → D) where
  abbrev pub send_all : Zstd → List (Message D) → NetworkBridge D R P → NetworkBridge D R P
  send_all zstd [] b = b
  send_all zstd (m ∷ ms) b =
      send_all zstd ms (send_message random clock zstd m.now m.topic m.msg_type m.level m.content b)

  -- A bridge without a fault engine sends messages that are carried, at times that do not go back, and
  -- has sequence numbers left for them; another bridge, which has accepted nothing later on its link,
  -- gets what the first one wrote, in order. Then the second publishes each message under its namespace
  -- and topic, in order and unchanged, and rejects nothing.
  pub link_delivers :
      (zstd : Zstd) (ms : List (Message D)) (t : ℕ) (b r : NetworkBridge D R P)
      → RestoresContent zstd
      → AllCarried zstd ms
      → IsRising t ms
      → b.fault_engine ≡ none
      → b.tx_sequence + length ms < 2 ^ 64
      → NotAhead r.frame_decoder 0 b.tx_sequence t
      → AllNamed r.publish_namespace r.publishers
      → (fs : List (List ℕ)) × ((send_all zstd ms b).calls ≡ b.calls ++ map write fs)
        × (seen (receive_all zstd fs r) ≡ seen r ++ map (expected r.publish_namespace) ms)
        × ((receive_all zstd fs r).frame_reject_count ≡ r.frame_reject_count)
        × ((send_all zstd ms b).tx_sequence ≡ b.tx_sequence + length ms)
  link_delivers zstd [] t b r law c rise quiet room n named =
      ([], sym (append-nil b.calls), sym (append-nil (seen r)), refl, omega arith)
  link_delivers zstd (m ∷ ms) t b r law c rise quiet room n named =
      let f = wire zstd b.tx_sequence m.topic m.msg_type m.level m.content m.now.timestamp_ns c.0 in
      let (w, sent) =
        send_message_lem random clock zstd m.now m.topic m.msg_type m.level m.content c.0.compressed
          b c.0.compresses c.0.within_limit quiet in
      let b1 = send_message random clock zstd m.now m.topic m.msg_type m.level m.content b in
      let r1 = receive_data zstd true true f r in
      let got : Published m.topic m.content _ r1 =
        receive_data-Published zstd b.tx_sequence m.topic m.msg_type m.level m.content
          m.now.timestamp_ns c.0 r law (omega (arith, room))
          (λ h. ((n h).0, omega (arith, rise.0, (n h).1))) named in
      let counted : b1.tx_sequence ≡ b.tx_sequence + 1 =
        ap (λ (x : NetworkBridge D R P). x.tx_sequence) sent ∙ omega (arith, room) in
      let ahead : NotAhead r1.frame_decoder 0 b1.tx_sequence m.now.timestamp_ns =
        rw (got.same_decoder, counted) (λ h. (omega arith, omega arith)) in
      let rest =
        link_delivers zstd ms m.now.timestamp_ns b1 r1 law c.1 rise.1
          (ap (λ (x : NetworkBridge D R P). x.fault_engine) sent ∙ quiet)
          (omega (arith, counted, room)) ahead got.named in
      (
        f ∷ rest.0,
        rest.1
            ∙ ap (λ (l : List InterfaceCall). l ++ map write rest.0)
                (ap (λ (x : NetworkBridge D R P). x.calls) sent)
            ∙ append_assoc b.calls (write f ∷ []) (map write rest.0),
        rest.2
            ∙ ap (λ (ns : Text). seen r1 ++ map (expected ns) ms) got.same_namespace
            ∙ ap (λ (l : List (Text × List ℕ)). l ++ map (expected r.publish_namespace) ms)
                got.seen_more
            ∙ append_assoc (seen r) (expected r.publish_namespace m ∷ [])
                (map (expected r.publish_namespace) ms),
        rest.3 ∙ got.same_rejects,
        rest.4 ∙ omega (arith, counted),
      )
