-- ===== src/Relay/Metrics.antt =====
-- relay/src/metrics.rs: the counters and the gauge. A clone shares them, so there is one record for
-- the whole process. Registration with the Prometheus registry and the text export are left out.
use plgames_booster_up.Base.{ℕ, ◌+◌, ◌%◌, ◌^◌}

-- Addition of `u64` values in a release build.
abbrev pub add_u64 : ℕ → ℕ → ℕ
add_u64 a b = (a + b) % 2 ^ 64

pub record Metrics : Type 0 where
  pub active_sessions : ℕ
  pub packets_received : ℕ
  pub packets_forwarded : ℕ
  pub packets_dropped : ℕ
  pub bytes_forwarded : ℕ
  pub invalid_sessions : ℕ
  pub keepalives : ℕ

unfoldable pub new_metrics : Metrics
new_metrics = record {
  active_sessions = 0;
  packets_received = 0;
  packets_forwarded = 0;
  packets_dropped = 0;
  bytes_forwarded = 0;
  invalid_sessions = 0;
  keepalives = 0;
}

-- One `inc` or `inc_by` for each counter.
abbrev pub count_received : Metrics → Metrics
count_received m = record m { packets_received = add_u64 m.packets_received 1 }

abbrev pub count_dropped : Metrics → Metrics
count_dropped m = record m { packets_dropped = add_u64 m.packets_dropped 1 }

abbrev pub count_invalid : Metrics → Metrics
count_invalid m = record m { invalid_sessions = add_u64 m.invalid_sessions 1 }

abbrev pub count_keepalive : Metrics → Metrics
count_keepalive m = record m { keepalives = add_u64 m.keepalives 1 }

abbrev pub count_forwarded : ℕ → Metrics → Metrics
count_forwarded bytes m = record m {
  packets_forwarded = add_u64 m.packets_forwarded 1;
  bytes_forwarded = add_u64 m.bytes_forwarded bytes;
}
