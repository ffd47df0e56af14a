-- ===== src/Dae.antt =====
-- crates/zuicity-dae/src/lib.rs: the metrics and lifecycle hooks of the dae adapter, and the streams
-- that report to them. A call of a hook runs whole before another one, and the lifecycle object is
-- the list of the calls that it got, the last one first.
pub mod Counts
mod Tests
use zuicity.Prelude.{
  ℕ, zero, suc, ◌+◌, ◌-◌, ◌%◌, List, [], ◌∷◌, Bool, true, false, ◌==◌, ltb, if◌then◌else◌, Option,
  none, some,
}
use zuicity.Prelude.Bytes.{Bytes}

abbrev pub u64_range : ℕ
u64_range = 18446744073709551616

pub record DaeMetrics : Type 0 where
  pub opened_connections : ℕ
  pub closed_connections : ℕ
  pub failed_connections : ℕ
  pub open_connections : ℕ
  pub bytes_sent : ℕ
  pub bytes_received : ℕ

-- `fetch_add`
abbrev pub fetch_add : ℕ → ℕ → ℕ
fetch_add counter n = (counter + n) % u64_range

-- `fetch_update` with `checked_sub(1)`, whose failure is ignored.
abbrev pub decrement : ℕ → ℕ
decrement value = if value == 0 then value else value - 1

-- `DaeMetrics::connection_opened`, `connection_closed`, `connection_failed`, `bytes_sent` and
-- `bytes_received`
abbrev pub metrics_opened : DaeMetrics → DaeMetrics
metrics_opened m = record m {
  opened_connections = fetch_add m.opened_connections 1;
  open_connections = fetch_add m.open_connections 1;
}

abbrev pub metrics_closed : DaeMetrics → DaeMetrics
metrics_closed m = record m {
  closed_connections = fetch_add m.closed_connections 1;
  open_connections = decrement m.open_connections;
}

abbrev pub metrics_failed : DaeMetrics → DaeMetrics
metrics_failed m = record m { failed_connections = fetch_add m.failed_connections 1 }

abbrev pub metrics_sent : ℕ → DaeMetrics → DaeMetrics
metrics_sent n m = record m { bytes_sent = fetch_add m.bytes_sent n }

abbrev pub metrics_received : ℕ → DaeMetrics → DaeMetrics
metrics_received n m = record m { bytes_received = fetch_add m.bytes_received n }

pub data DaeNetwork : Type 0 where
  tcp udp : DaeNetwork

pub data DaeConnectionState : Type 0 where
  state_open state_closed state_failed : DaeConnectionState

-- A call of `ConnectionLifecycle`; a target is the bytes of its string.
pub data LifecycleCall : Type 0 where
  on_open on_close : LifecycleCall
  on_connection_event : DaeConnectionState → DaeNetwork → Bytes → LifecycleCall

pub record DaeRuntimeHooks : Type 0 where
  pub lifecycle : List LifecycleCall
  pub metrics : DaeMetrics

abbrev pub metrics_default : DaeMetrics
metrics_default = record {
  opened_connections = 0;
  closed_connections = 0;
  failed_connections = 0;
  open_connections = 0;
  bytes_sent = 0;
  bytes_received = 0;
}

-- `DaeRuntimeHooks::connection_opened`
unfoldable pub connection_opened : DaeNetwork → Bytes → DaeRuntimeHooks → DaeRuntimeHooks
connection_opened network target h = record h {
  metrics = metrics_opened h.metrics;
  lifecycle = on_connection_event state_open network target ∷ on_open ∷ h.lifecycle;
}

-- `DaeRuntimeHooks::connection_closed`
unfoldable pub connection_closed : DaeNetwork → Bytes → DaeRuntimeHooks → DaeRuntimeHooks
connection_closed network target h = record h {
  metrics = metrics_closed h.metrics;
  lifecycle = on_connection_event state_closed network target ∷ on_close ∷ h.lifecycle;
}

-- `DaeRuntimeHooks::connection_failed`
unfoldable pub connection_failed : DaeNetwork → Bytes → DaeRuntimeHooks → DaeRuntimeHooks
connection_failed network target h = record h {
  metrics = metrics_failed h.metrics;
  lifecycle = on_connection_event state_failed network target ∷ h.lifecycle;
}

-- `DaeRuntimeHooks::bytes_sent` and `bytes_received`
unfoldable pub bytes_sent : ℕ → DaeRuntimeHooks → DaeRuntimeHooks
bytes_sent n h = record h { metrics = metrics_sent n h.metrics }

unfoldable pub bytes_received : ℕ → DaeRuntimeHooks → DaeRuntimeHooks
bytes_received n h = record h { metrics = metrics_received n h.metrics }

-- What `DaeJuicityTcpStream` and `DaeJuicityUdpAssociation` keep beside their streams.
pub record DaeStream : Type 0 where
  pub network : DaeNetwork
  pub target : Bytes
  pub closed : Bool

-- `close_once` of both
unfoldable pub close_once : DaeStream → DaeRuntimeHooks → DaeStream × DaeRuntimeHooks
close_once s h =
    if s.closed
    then (s, h)
    else (record s { closed = true }, connection_closed s.network s.target h)

-- The adapter: the hooks that its streams share, and the streams that are alive.
pub record DaeAdapter : Type 0 where
  pub hooks : DaeRuntimeHooks
  pub streams : List DaeStream

abbrev pub fresh_adapter : DaeAdapter
fresh_adapter = record {
  hooks = record { lifecycle = []; metrics = metrics_default };
  streams = [];
}

-- The end of `connect_tcp` and `connect_udp`, by the outcome of the connection.
unfoldable pub connect_succeeded : DaeNetwork → Bytes → DaeAdapter → DaeAdapter
connect_succeeded network target a = record {
  hooks = connection_opened network target a.hooks;
  streams = record { network = network; target = target; closed = false } ∷ a.streams;
}

unfoldable pub connect_failed : DaeNetwork → Bytes → DaeAdapter → DaeAdapter
connect_failed network target a = record a { hooks = connection_failed network target a.hooks }

-- A poll that wrote or read some bytes tells the hooks.
unfoldable pub polled_write : ℕ → DaeAdapter → DaeAdapter
polled_write n a = if n == 0 then a else record a { hooks = bytes_sent n a.hooks }

unfoldable pub polled_read : ℕ → DaeAdapter → DaeAdapter
polled_read n a = if n == 0 then a else record a { hooks = bytes_received n a.hooks }

-- `drop` of a stream, which leaves the others.
unfoldable pub drop_stream : DaeStream → List DaeStream → DaeAdapter → DaeAdapter
drop_stream s others a = record { hooks = (close_once s a.hooks).1; streams = others }
