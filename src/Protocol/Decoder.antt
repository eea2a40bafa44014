-- ===== src/Protocol/Decoder.antt =====
-- `FrameDecoder` of frame_codec.hpp: it also holds each stream to rising sequence numbers and times.
pub mod Monotonic
pub mod Delivery
use av_hil_validation_platfo.Base.Memory.{Memory}
use av_hil_validation_platfo.Base.Tests.{ltb, ◌==◌, if◌then◌else◌}
use av_hil_validation_platfo.Protocol.Frame.{
  FrameHeader, FrameError, ok, sequence_regression, timestamp_regression,
}
use av_hil_validation_platfo.Protocol.Codec.{decode_header}
use av_hil_validation_platfo.Base.{ℕ, Bool, true, false, Option}

pub record StreamState : Type 0 where
  pub last_sequence : ℕ
  pub last_timestamp_ns : ℕ
  pub seen : Bool

abbrev pub fresh : StreamState
fresh = record { last_sequence = 0; last_timestamp_ns = 0; seen = false }

-- `last_`. The map is only indexed, and a missing key reads as a fresh state, so it is a function.
pub record FrameDecoder : Type 0 where
  pub last : ℕ → StreamState

abbrev pub initial : FrameDecoder
initial = record { last = λ key. fresh }

pub reset : FrameDecoder → FrameDecoder
reset d = record { last = λ key. fresh }

-- `last_[key] = st`
abbrev pub update : (ℕ → StreamState) → ℕ → StreamState → ℕ → StreamState
update last key st j = if j == key then st else last j

-- What is left to do once the frame itself is good.
pub check_stream : FrameDecoder → ℕ → FrameHeader → FrameError × FrameDecoder
check_stream d stream_key out =
    let st = d.last stream_key in
    let accepted : FrameDecoder = record {
      last = update d.last stream_key (record {
        last_sequence = out.sequence;
        last_timestamp_ns = out.timestamp_ns;
        seen = true;
      });
    } in
    if st.seen
    then (if ltb out.sequence st.last_sequence
        then (sequence_regression, d)
        else if ltb out.timestamp_ns st.last_timestamp_ns
        then (timestamp_regression, d)
        else (ok, accepted))
    else (ok, accepted)

abbrev continue :
    FrameDecoder → ℕ → FrameError → FrameHeader → FrameError × FrameHeader × FrameDecoder
continue d stream_key ok out = let (e, d') = check_stream d stream_key out in (e, out, d')
continue d stream_key err out = (err, out, d)

-- The verdict, the output parameter and the decoder afterwards.
pub decode :
    FrameDecoder → Option Memory → ℕ → ℕ → FrameHeader → FrameError × FrameHeader × FrameDecoder
unfolding check_stream
decode d data_ptr size stream_key out =
    let (err, out') = decode_header data_ptr size out in continue d stream_key err out'
