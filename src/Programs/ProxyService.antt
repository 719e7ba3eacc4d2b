-- ===== src/Programs/ProxyService.antt =====
-- apps/proxy_service.cpp: the service between vehicle and ground station, which opens each record of
-- the one session and seals its payload again in the other.
pub mod Runs
use new_mavlink.Common.{
  ℕ, ◌+◌, ◌%◌, ◌^◌, Bool, true, false, not, ◌&&◌, ◌||◌, Option, none, some, Pointer, leb, ◌==◌,
  ◌!=◌, is_some, u64, if◌then◌else◌,
}
use new_mavlink.Crypto.{Ascon}
use new_mavlink.Wire.{MessageType, RecordHeader, known_type}
use new_mavlink.Messages.State.{decode_position, decode_attitude, decode_battery}
use new_mavlink.Record.Types.{RecordError, OpenRecord, Result, ok, err}
use new_mavlink.Record.Session.{new_session}
use new_mavlink.Transport.Udp.{Network, UdpEndpoint, new_udp, bind}
use new_mavlink.Transport.{NativeEndpoint, new_endpoint, send, receive_uncommitted, commit}
use new_mavlink.Programs.{vehicle_id, gcs_id, proxy_id, loopback, link_keys}

pub record ProxyService : Type 0 where
  pub ingress : NativeEndpoint
  pub egress : NativeEndpoint
  pub egress_sequence : ℕ
  pub received_any : Bool

-- The state with which the loop starts, or the exit code.
pub data Start (S : Type 0) : Type 0 where
  serves : UdpEndpoint → S → Start S
  fails : ℕ → Start S

unfoldable pub new_service : NativeEndpoint → NativeEndpoint → ProxyService
new_service ingress egress = record {
  ingress = ingress;
  egress = egress;
  egress_sequence = 0;
  received_any = false;
}

-- Before the loop.
unfoldable pub start : {W : Type 0} → Ascon → Network W → W → ℕ → W × Start ProxyService
start a net w ingress_port = elim (link_keys a vehicle_id proxy_id) [
  | none ↦ (w, Start.fails 2)
  | some (vehicle_unused, proxy_ingress) ↦ elim (link_keys a proxy_id gcs_id) [
    | none ↦ (w, Start.fails 2)
    | some (proxy_egress, gcs_unused) ↦
        let (w1, udp, bound) = bind net w new_udp ingress_port in
        if not bound then (w1, Start.fails 3) else (
          w1,
          Start.serves udp (
              new_service (new_endpoint (new_session proxy_ingress))
                (new_endpoint (new_session proxy_egress))),
        )
  ]
]

-- A payload of a state message has to decode, any other is passed on as it is.
unfoldable pub decodes : MessageType → Pointer → ℕ → Bool
decodes MessageType.position bytes size = is_some (decode_position bytes size)
decodes MessageType.attitude bytes size = is_some (decode_attitude bytes size)
decodes MessageType.battery bytes size = is_some (decode_battery bytes size)
decodes _ bytes size = true

unfoldable pub fits_schema : OpenRecord → Bool
fits_schema opened =
    known_type opened.header.type
    && opened.length != 0
    && decodes opened.header.type (some opened.payload) opened.length

unfoldable pub out_header : ProxyService → RecordHeader → RecordHeader
out_header s header = record header {
  source_id = proxy_id;
  destination_id = gcs_id;
  sequence = s.egress_sequence;
  session_id = 1;
  epoch = 1;
}

-- After the loop: `return received_any ? 0 : 4`
unfoldable pub exit_code : Bool → ℕ
exit_code received_any = if received_any then 0 else 4

-- From the result of `egress.send` on.
unfoldable pub relayed :
    {W : Type 0}
    → ℕ
    → ℕ
    → ProxyService
    → W × NativeEndpoint × Result (Unit {0})
    → W × ProxyService × Option ℕ
relayed duration_ms elapsed s (w, egress, err error) = (w, record s { egress = egress }, some 5)
relayed duration_ms elapsed s (w, egress, ok sent) = (
  w,
  record s { egress = egress },
  if duration_ms == 0 || leb duration_ms elapsed then some (exit_code s.received_any) else none,
)

-- From the result of `ingress.commit` on.
unfoldable pub relay :
    {W : Type 0}
    → Ascon
    → Network W
    → UdpEndpoint
    → ℕ
    → ℕ
    → ℕ
    → W
    → ProxyService
    → OpenRecord
    → NativeEndpoint × Result (Unit {0})
    → W × ProxyService × Option ℕ
relay a net udp egress_port duration_ms elapsed w s opened (ingress, err error) =
    (w, record s { ingress = ingress }, some 8)
relay a net udp egress_port duration_ms elapsed w s opened (ingress, ok committed) =
    relayed duration_ms elapsed
      (record s { ingress = ingress; egress_sequence = u64 (s.egress_sequence + 1) })
      (send a net w s.egress (out_header s opened.header) (some opened.payload) opened.length udp
        loopback egress_port)

-- The branch on a record that was opened.
unfoldable pub on_record :
    {W : Type 0}
    → Ascon
    → Network W
    → UdpEndpoint
    → ℕ
    → ℕ
    → ℕ
    → W
    → ProxyService
    → OpenRecord
    → W × ProxyService × Option ℕ
on_record a net udp egress_port duration_ms elapsed w s opened =
    if not (fits_schema opened)
    then (w, record s { received_any = true }, none)
    else (relay a net udp egress_port duration_ms elapsed w (record s { received_any = true })
        opened (commit s.ingress opened))

-- The branch on an error.
unfoldable pub on_error : ℕ → ℕ → ProxyService → RecordError → Option ℕ
on_error duration_ms elapsed s RecordError.timeout =
    if duration_ms == 0
    then some 4
    else if leb duration_ms elapsed
    then some (exit_code s.received_any)
    else none
on_error duration_ms elapsed s _ = some 4

unfoldable pub on_received :
    {W : Type 0}
    → Ascon
    → Network W
    → UdpEndpoint
    → ℕ
    → ℕ
    → ℕ
    → ProxyService
    → W × NativeEndpoint × Result OpenRecord
    → W × ProxyService × Option ℕ
on_received a net udp egress_port duration_ms elapsed s (w, ingress, err error) =
    (w, record s { ingress = ingress }, on_error duration_ms elapsed s error)
on_received a net udp egress_port duration_ms elapsed s (w, ingress, ok opened) =
    on_record a net udp egress_port duration_ms elapsed w (record s { ingress = ingress }) opened

-- One turn of the loop, `elapsed` milliseconds after the start.
unfoldable pub turn :
    {W : Type 0}
    → Ascon
    → Network W
    → UdpEndpoint
    → ℕ
    → ℕ
    → ℕ
    → W
    → ProxyService
    → W × ProxyService × Option ℕ
turn a net udp egress_port duration_ms elapsed w s =
    on_received a net udp egress_port duration_ms elapsed s
      (receive_uncommitted a net w s.ingress udp (elapsed % 2 ^ 32))
