-- ===== src/Capture.antt =====
-- `LiveCaptureManager` of backend/internal/capture/manager.go. A channel `stopChan` is a number, and
-- the state knows which are closed. Each `captureLoop` is a goroutine of its own: between two looks at
-- the stop channel it runs tcpdump, whose outcome is an argument.
pub mod Restart
pub mod Reader
use secure_mail_scope_sih.Common.{
  ℕ, ◌+◌, ◌-◌, Bool, true, false, List, [], ◌∷◌, ◌==◌, if◌then◌else◌, any, Text, codes, is_empty,
}

pub data Status : Type 0 where
  active stopped error : Status

pub record Manager : Type 0 where
  pub active_interface : Text
  pub status : Status
  pub start_time : ℕ
  pub packets : ℕ
  pub bytes : ℕ
  pub stop_chan : ℕ
  pub closed : List ℕ
  pub next_chan : ℕ
  pub bpf_filter : Text
  -- how many capture loops run
  pub loops : ℕ

-- The filter that `NewLiveCaptureManager` sets.
unfoldable pub default_filter : Text
default_filter =
    codes
      "tcp port 25 or tcp port 465 or tcp port 587 or tcp port 110 or tcp port 995 or tcp port 143 or tcp port 993"

-- `NewLiveCaptureManager`; the nil channel, which is never closed, is number 0.
unfoldable pub new_manager : Manager
new_manager = record {
  active_interface = [];
  status = stopped;
  start_time = 0;
  packets = 0;
  bytes = 0;
  stop_chan = 0;
  closed = [];
  next_chan = 1;
  bpf_filter = default_filter;
  loops = 0;
}

unfoldable pub is_active : Status → Bool
is_active active = true
is_active _ = false

-- `Start` at the instant `now`; the flag tells of the error "capture is already active".
unfoldable pub start : Text → ℕ → Manager → Manager × Bool
unfolding is_active
start iface now m = if is_active m.status then (m, false) else (
  record m {
    active_interface = if is_empty iface then codes "any" else iface;
    status = active;
    stop_chan = m.next_chan;
    next_chan = m.next_chan + 1;
    start_time = now;
    packets = 0;
    bytes = 0;
    loops = m.loops + 1;
  },
  true,
)

unfoldable pub is_closed : ℕ → Manager → Bool
is_closed c m = any (λ d. d == c) m.closed

-- `Stop`; the flag tells of the error "capture is not active". A channel is closed once.
unfoldable pub stop : Manager → Manager × Bool
unfolding is_active is_closed
stop m =
    if is_active m.status
    then (
      record m {
        closed = if is_closed m.stop_chan m then m.closed else m.stop_chan ∷ m.closed;
        status = stopped;
      },
      true,
    )
    else (m, false)

-- `SetFilter`
unfoldable pub set_filter : Text → Manager → Manager
set_filter filter m = record m { bpf_filter = filter }

-- How one chunk ends: tcpdump fails and the loop goes on; no file, or an empty one; a file of a header
-- only; a file that cannot be moved; a chunk of so many packets and bytes.
pub data Outcome : Type 0 where
  tcpdump_error no_capture header_only move_failed : Outcome
  chunk : ℕ → ℕ → Outcome

-- One look of a capture loop at `m.stopChan`: it ends where that channel is closed.
unfoldable pub look : Manager → Manager × Bool
unfolding is_closed
look m = if is_closed m.stop_chan m then (record m { loops = m.loops - 1 }, false) else (m, true)

-- The end of a chunk, and whether the loop goes on.
unfoldable pub finish_chunk : Outcome → Manager → Manager × Bool
finish_chunk tcpdump_error m = (m, true)
finish_chunk no_capture m = (record m { status = error; loops = m.loops - 1 }, false)
finish_chunk header_only m = (m, true)
finish_chunk move_failed m = (m, true)
finish_chunk (chunk packets bytes) m =
    (record m { packets = m.packets + packets; bytes = m.bytes + bytes }, true)
