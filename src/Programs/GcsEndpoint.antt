-- ===== src/Programs/GcsEndpoint.antt =====
-- apps/gcs_endpoint.cpp: the ground station, which opens records and prints the states in them.
use new_mavlink.Common.{
  ℕ, ◌+◌, ◌%◌, ◌^◌, not, ◌&&◌, Option, none, some, leb, ltb, ◌==◌, u64, if◌then◌else◌,
}
use new_mavlink.Crypto.{Ascon}
use new_mavlink.Record.Types.{RecordError, OpenRecord, Result, ok, err}
use new_mavlink.Record.Session.{new_session}
use new_mavlink.Transport.Udp.{Network, UdpEndpoint, new_udp, bind}
use new_mavlink.Transport.{NativeEndpoint, new_endpoint, receive_uncommitted, commit}
use new_mavlink.Programs.{gcs_id, proxy_id, link_keys, VehicleState, read_state}
use new_mavlink.Programs.ProxyService.{Start}

-- `shown` is the state that the turn before printed as `NEWMAVLINK_GCS_STATE`.
pub record GcsEndpoint : Type 0 where
  pub endpoint : NativeEndpoint
  pub received_count : ℕ
  pub shown : Option VehicleState

unfoldable pub new_gcs : NativeEndpoint → GcsEndpoint
new_gcs endpoint = record { endpoint = endpoint; received_count = 0; shown = none }

-- Before the loop.
unfoldable pub start : {W : Type 0} → Ascon → Network W → W → ℕ → W × Start GcsEndpoint
start a net w listen_port = elim (link_keys a proxy_id gcs_id) [
  | none ↦ (w, Start.fails 2)
  | some (unused, rx) ↦
      let (w1, udp, bound) = bind net w new_udp listen_port in
      if not bound
      then (w1, Start.fails 3)
      else (w1, Start.serves udp (new_gcs (new_endpoint (new_session rx))))
]

-- The branch on an error.
unfoldable pub on_error : ℕ → ℕ → GcsEndpoint → RecordError → Option ℕ
on_error duration_ms elapsed g RecordError.timeout =
    if ltb 0 duration_ms && ltb elapsed duration_ms
    then none
    else some (if g.received_count == 0 then 4 else 0)
on_error duration_ms elapsed g _ = some (if g.received_count == 0 then 4 else 0)

-- From `++received_count` on.
unfoldable pub counted : ℕ → ℕ → GcsEndpoint → GcsEndpoint × Option ℕ
counted duration_ms elapsed g =
    let count = u64 (g.received_count + 1) in
    (
      record g { received_count = count },
      if duration_ms == 0
          then some 0
          else if leb duration_ms elapsed
          then some (if ltb 0 count then 0 else 4)
          else none,
    )

-- From the result of `commit` on.
unfoldable pub on_committed :
    ℕ → ℕ → GcsEndpoint → NativeEndpoint × Result (Unit {0}) → GcsEndpoint × Option ℕ
on_committed duration_ms elapsed g (endpoint, err error) =
    (record g { endpoint = endpoint }, some 6)
on_committed duration_ms elapsed g (endpoint, ok committed) =
    counted duration_ms elapsed (record g { endpoint = endpoint })

-- The branch on a record that was opened, whose payload was decoded and printed.
unfoldable pub on_state :
    ℕ → ℕ → GcsEndpoint → OpenRecord → Option VehicleState → GcsEndpoint × Option ℕ
on_state duration_ms elapsed g opened none = (record g { shown = none }, none)
on_state duration_ms elapsed g opened (some value) =
    on_committed duration_ms elapsed (record g { shown = some value }) (commit g.endpoint opened)

unfoldable pub on_received :
    {W : Type 0}
    → ℕ
    → ℕ
    → GcsEndpoint
    → W × NativeEndpoint × Result OpenRecord
    → W × GcsEndpoint × Option ℕ
on_received duration_ms elapsed g (w, endpoint, err error) =
    (w, record g { endpoint = endpoint; shown = none }, on_error duration_ms elapsed g error)
on_received duration_ms elapsed g (w, endpoint, ok opened) =
    let (g1, code) =
      on_state duration_ms elapsed (record g { endpoint = endpoint }) opened
        (read_state opened.header.type (some opened.payload) opened.length) in
    (w, g1, code)

-- One turn of the loop, `elapsed` milliseconds after the start.
unfoldable pub turn :
    {W : Type 0}
    → Ascon
    → Network W
    → UdpEndpoint
    → ℕ
    → ℕ
    → W
    → GcsEndpoint
    → W × GcsEndpoint × Option ℕ
turn a net udp duration_ms elapsed w g =
    on_received duration_ms elapsed g
      (receive_uncommitted a net w g.endpoint udp (elapsed % 2 ^ 32))
