-- ===== src/Proxy/Bounds/Reachable.antt =====
-- src/proxy.cpp: the bounds hold of every proxy that its public methods can reach.
use new_mavlink.Common.{ℕ}
use new_mavlink.Wire.{MessageType}
use new_mavlink.Messages.{Subscription}
use new_mavlink.Record.Types.{OpenRecord}
use new_mavlink.Record.Session.{Session}
use new_mavlink.Proxy.{
  NativeProxy, add_link, remove_link, subscribe, unsubscribe, next, next_resync,
}
use new_mavlink.Proxy.Ingest.{ingest}

-- One call of a public method that changes the proxy.
pub data ProxyStep : NativeProxy → NativeProxy → Type 0 where
  adds : (p : NativeProxy) (k : ℕ) (session : Session) → ProxyStep p (add_link p k session).0
  removes : (p : NativeProxy) (k : ℕ) → ProxyStep p (remove_link p k).0
  subscribes : (p : NativeProxy) (k : ℕ) (s : Subscription) → ProxyStep p (subscribe p k s).0
  unsubscribes :
      (p : NativeProxy) (k : ℕ) (type : MessageType) → ProxyStep p (unsubscribe p k type).0
  ingests :
      (p : NativeProxy) (k : ℕ) (opened : OpenRecord) (now_ms : ℕ)
      → ProxyStep p (ingest p k opened now_ms).0
  takes : (p : NativeProxy) (k now_ms : ℕ) → ProxyStep p (next p k now_ms).0
  asks : (p : NativeProxy) → ProxyStep p (next_resync p).0
