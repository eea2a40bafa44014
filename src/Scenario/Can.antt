-- ===== src/Scenario/Can.antt =====
-- src/sensors/can_publisher.cpp, src/sensors/synthetic_base.hpp and scenario_runner.cpp: the telemetry in the
-- frames of the CAN publisher, and the reader that measures the bus. The bytes of the signals, which are
-- made of sines and noise, are a parameter, as are the sockets and the clocks.
pub mod Telemetry
use av_hil_validation_platfo.Base.Double.{Double}
use av_hil_validation_platfo.Base.Lists.{get_or, set, replicate}
use av_hil_validation_platfo.Base.Tests.{◌==◌, if◌then◌else◌}
use av_hil_validation_platfo.Scenario.StreamMetrics.{StreamMetrics, record_arrival}
use av_hil_validation_platfo.Base.{
  ℕ, ◌+◌, ◌-◌, ◌*◌, ◌/◌, ◌%◌, ◌^◌, bit_or, Bool, true, false, not, ◌&&◌, List, [], ◌∷◌, ◌++◌,
}

-- `struct can_frame`, whose `data` are `bytes` here.
pub record CanFrame : Type 0 where
  pub can_id : ℕ
  pub can_dlc : ℕ
  pub bytes : List ℕ

-- The bytes in memory of the signal that a tick sends: two of the wheel speed, two of the steering
-- angle, one of the throttle.
pub record Signals : Type 0 where
  pub speed : ℕ → ℕ × ℕ
  pub angle : ℕ → ℕ × ℕ
  pub throttle : ℕ → ℕ

-- The `switch` over the three signals, on a frame of zeros.
unfoldable pub signal_frame : Signals → ℕ → CanFrame
signal_frame signals seq =
    let zeros = replicate 8 0 in
    if seq % 3 == 0
    then (let (low, high) = signals.speed seq in
        record { can_id = 256; can_dlc = 8; bytes = set (set zeros 0 low) 1 high })
    else if seq % 3 == 1
    then (let (low, high) = signals.angle seq in
        record { can_id = 512; can_dlc = 4; bytes = set (set zeros 0 low) 1 high })
    else record { can_id = 768; can_dlc = 2; bytes = set zeros 0 (signals.throttle seq) }

-- The telemetry of `on_tick`. `now_us` is the steady clock in microseconds.
unfoldable pub put_telemetry : ℕ → ℕ → CanFrame → CanFrame
put_telemetry seq now_us frame =
    let seq16 = seq % 2 ^ 16 in
    let ts_us = now_us % 2 ^ 32 in
    record frame {
      can_dlc = 8;
      bytes =
          set
            (set
              (set
                (set (set (set frame.bytes 2 (seq16 % 2 ^ 8)) 3 (seq16 / 2 ^ 8 % 2 ^ 8)) 4
                  (ts_us % 2 ^ 8))
                5 (ts_us / 2 ^ 8 % 2 ^ 8))
              6 (ts_us / 2 ^ 16 % 2 ^ 8))
            7 (ts_us / 2 ^ 24 % 2 ^ 8);
    }

-- The frame that `on_tick` writes to the socket.
unfoldable pub on_tick : Signals → ℕ → ℕ → CanFrame
on_tick signals seq now_us = put_telemetry seq now_us (signal_frame signals seq)

-- The turns of the timer: the sequence number goes up by one after each.
unfoldable pub ticks : Signals → ℕ → List ℕ → List CanFrame
ticks signals seq [] = []
ticks signals seq (now_us ∷ rest) =
    on_tick signals seq now_us ∷ ticks signals ((seq + 1) % 2 ^ 64) rest

-- `data[2] | data[3] << 8`
unfoldable pub frame_seq : CanFrame → ℕ
frame_seq frame = bit_or (get_or frame.bytes 2 0) (get_or frame.bytes 3 0 * 2 ^ 8)

unfoldable pub frame_sent_us : CanFrame → ℕ
frame_sent_us frame =
    bit_or
      (bit_or (bit_or (get_or frame.bytes 4 0) (get_or frame.bytes 5 0 * 2 ^ 8))
        (get_or frame.bytes 6 0 * 2 ^ 16))
      (get_or frame.bytes 7 0 * 2 ^ 24)

-- What `read` gives to one turn of the reader: an error, fewer bytes than a frame, or a frame with
-- the time of the steady clock in microseconds and the time since the start.
pub data CanRead (D : Type 0) : Type 0 where
  failed short : CanRead D
  frame_read : CanFrame → ℕ → D → CanRead D

pub record CanReader (D : Type 0) : Type 0 where
  pub have_prev_seq : Bool
  pub prev_seq : ℕ
  pub frames : ℕ
  pub metrics : StreamMetrics D

-- `now_us - sent_us` in 32 bits
unfoldable pub latency_us : ℕ → ℕ → ℕ
latency_us now_us sent_us = (now_us % 2 ^ 32 + (2 ^ 32 - sent_us)) % 2 ^ 32

module _ {D : Type 0} ⦃d : Double D⦄ where
  abbrev pub new_reader : StreamMetrics D → CanReader D
  new_reader metrics = record { have_prev_seq = false; prev_seq = 0; frames = 0; metrics = metrics }

  unfoldable pub read_frame : CanFrame → ℕ → D → CanReader D → CanReader D
  read_frame frame now_us arrival_s r =
      let seq = frame_seq frame in
      let latency_ms = d.div (d.of_nat (latency_us now_us (frame_sent_us frame))) (d.of_nat 1000) in
      let gap = r.have_prev_seq && not (seq == (r.prev_seq + 1) % 2 ^ 16) in
      record {
        have_prev_seq = true;
        prev_seq = seq;
        frames = (r.frames + 1) % 2 ^ 64;
        metrics = record_arrival latency_ms arrival_s gap r.metrics;
      }

  unfoldable pub reader_turn : CanRead D → CanReader D → CanReader D
  reader_turn failed r = r
  reader_turn short r = r
  reader_turn (frame_read frame now_us arrival_s) r = read_frame frame now_us arrival_s r

  unfoldable pub can_reader_loop : List (CanRead D) → CanReader D → CanReader D
  can_reader_loop [] r = r
  can_reader_loop (x ∷ rest) r = can_reader_loop rest (reader_turn x r)
