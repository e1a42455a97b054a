-- ===== src/Client/WinDivert/Threads.antt =====
-- client/src-tauri/src/windivert.rs: what the capture thread and the two receiving threads do to each
-- other through the shared state.
use plgames_booster_up.Base.{
  ℕ, ◌^◌, ◌≡◌, ◌<◌, refl, sym, ap, ◌∙◌, Bool, false, Bytes, some, List, [], ◌∷◌, arith, subst,
}
use plgames_booster_up.Base.Words.{be_bytes_u16, from_be_u16}
use plgames_booster_up.Net.{Ipv4Addr}
use plgames_booster_up.Client.Protocol.{PlgPacket, parse, is_keepalive}
use plgames_booster_up.Client.Proxy.{elem, limited}
use plgames_booster_up.Client.PacketBuilder.{build_udp_response, ip_header, udp_header}
use plgames_booster_up.Client.WinDivert.{
  WinDivertProxy, inject, ReverseKey, LocalEnd, Captured, udp, parse_captured, put, track,
  reverse_key_eq, send_control, send_data, capture, FirstEntry, inject_reply, receive_primary,
  receive_backup,
}

-- A packet that is built for a reply is read back by the capture thread's parser with its addresses,
-- its ports and its payload.
pub parse_captured-build_udp_response :
    (src dst : Ipv4Addr) (src_port dst_port : ℕ) (payload : Bytes)
    → src_port < 2 ^ 16
    → dst_port < 2 ^ 16
    → parse_captured (build_udp_response src dst src_port dst_port payload)
      ≡ udp (record {
        src_ip = src;
        dst_ip = dst;
        src_port = src_port;
        dst_port = dst_port;
        udp_payload = payload;
      })
unfolding parse_captured build_udp_response ip_header udp_header be_bytes_u16 from_be_u16
parse_captured-build_udp_response src dst src_port dst_port payload hs hd = ground arith

-- A datagram with a new reply.
record IsReply (seen : List ℕ) (bytes : Bytes) (packet : PlgPacket) : Type 0 where
  parsed : parse bytes ≡ some packet
  no_keepalive : is_keepalive packet ≡ false
  unseen : elem packet.seq_number seen ≡ false

receive_primary-inject_reply :
    (first_entry : FirstEntry) (free : Bool) (p : WinDivertProxy) (bytes : Bytes)
    (packet : PlgPacket)
    → IsReply p.seen_primary bytes packet
    → receive_primary first_entry free p bytes
      ≡ inject_reply first_entry free
          (record p { seen_primary = limited (packet.seq_number ∷ p.seen_primary) })
          packet
unfolding receive_primary
receive_primary-inject_reply first_entry free p bytes packet h =
    rw (h.parsed, receive_primary) (rw h.no_keepalive (rw h.unseen refl))

receive_backup-inject_reply :
    (first_entry : FirstEntry) (free : Bool) (p : WinDivertProxy) (bytes : Bytes)
    (packet : PlgPacket)
    → IsReply p.seen_backup bytes packet
    → receive_backup first_entry free p bytes
      ≡ inject_reply first_entry free
          (record p { seen_backup = limited (packet.seq_number ∷ p.seen_backup) })
          packet
unfolding receive_backup
receive_backup-inject_reply first_entry free p bytes packet h =
    rw (h.parsed, receive_backup) (rw h.no_keepalive (rw h.unseen refl))

abbrev entry_of : Captured → ReverseKey × LocalEnd
entry_of c = (
  record { remote_ip = c.dst_ip; remote_port = c.dst_port },
  record { ip = c.src_ip; port = c.src_port },
)

send_control-frame :
    (c : Captured) (p : WinDivertProxy)
    → ((send_control c p).0.reverse_map ≡ p.reverse_map)
      × ((send_control c p).0.seen_primary ≡ p.seen_primary)
unfolding send_control
send_control-frame c p = ground arith

send_data-frame :
    (free : Bool) (payload : Bytes) (p : WinDivertProxy)
    → ((send_data free payload p).0.reverse_map ≡ p.reverse_map)
      × ((send_data free payload p).0.seen_primary ≡ p.seen_primary)
unfolding send_data
send_data-frame free payload p = ground arith

inject_reply-sent :
    (first_entry : FirstEntry) (free : Bool) (p : WinDivertProxy) (packet : PlgPacket)
    (key : ReverseKey) (end : LocalEnd)
    → first_entry p.reverse_map ≡ some (key, end)
    → (inject_reply first_entry free p packet).1
      ≡ inject (build_udp_response key.remote_ip end.ip key.remote_port end.port packet.payload)
        ∷ []
unfolding inject_reply
inject_reply-sent first_entry free p packet key end h = rw (h, inject_reply) refl

inject_reply-frame :
    (first_entry : FirstEntry) (free : Bool) (p : WinDivertProxy) (packet : PlgPacket)
    → ((inject_reply first_entry free p packet).0.reverse_map ≡ p.reverse_map)
      × ((inject_reply first_entry free p packet).0.seen_backup ≡ p.seen_backup)
unfolding inject_reply
inject_reply-frame first_entry free p packet = ground arith

-- The reverse map behind the capture of a packet, when it was empty.
capture-reverse_map :
    (free : Bool) (now : ℕ) (p : WinDivertProxy) (bytes : Bytes) (c : Captured)
    → parse_captured bytes ≡ udp c
    → p.reverse_map ≡ []
    → ((capture free now p bytes).0.reverse_map ≡ entry_of c ∷ [])
      × ((capture free now p bytes).0.seen_primary ≡ p.seen_primary)
unfolding capture put
capture-reverse_map free now p bytes c h e =
    let (controls_map, controls_seen) = send_control-frame c (track now c p) in
    let (data_map, data_seen) =
      send_data-frame free c.udp_payload (send_control c (track now c p)).0 in
    let added : put reverse_key_eq (entry_of c).0 (entry_of c).1 p.reverse_map ≡ entry_of c ∷ [] =
      ap (put reverse_key_eq (entry_of c).0 (entry_of c).1) e in
    rw (h, capture) (data_map ∙ controls_map ∙ added, data_seen ∙ controls_seen)

-- A reply of the relay, no keepalive and with a new sequence number, that follows the first
-- intercepted packet is injected as a packet that goes the other way: from the game server's address
-- and port to those of the game, with the reply's payload; given that the first entry of a map with
-- one entry is that entry, and that the ports have 16 bits.
pub reply_goes_back :
    (first_entry : FirstEntry) (free : Bool) (now : ℕ) (p : WinDivertProxy) (c : Captured)
    (bytes reply : Bytes) (packet : PlgPacket)
    → ((entry : ReverseKey × LocalEnd) → first_entry (entry ∷ []) ≡ some entry)
    → parse_captured bytes ≡ udp c
    → c.src_port < 2 ^ 16
    → c.dst_port < 2 ^ 16
    → p.reverse_map ≡ []
    → parse reply ≡ some packet
    → is_keepalive packet ≡ false
    → elem packet.seq_number p.seen_primary ≡ false
    → (raw : Bytes) × ((receive_primary first_entry free (capture free now p bytes).0 reply).1
        ≡ inject raw ∷ [])
      × (parse_captured raw
          ≡ udp (record {
            src_ip = c.dst_ip;
            dst_ip = c.src_ip;
            src_port = c.dst_port;
            dst_port = c.src_port;
            udp_payload = packet.payload;
          }))
reply_goes_back first_entry free now p c bytes reply packet only hc hs hd he hr hk hu =
    let q = (capture free now p bytes).0 in
    let (mapped, seen) = capture-reverse_map free now p bytes c hc he in
    let found : first_entry q.reverse_map ≡ some (entry_of c) =
      ap first_entry mapped ∙ only (entry_of c) in
    let is_reply : IsReply q.seen_primary reply packet = record {
      parsed = hr;
      no_keepalive = hk;
      unseen = subst (λ s. elem packet.seq_number s ≡ false) (sym seen) hu;
    } in
    (
      build_udp_response c.dst_ip c.src_ip c.dst_port c.src_port packet.payload,
      rw (receive_primary-inject_reply first_entry free q reply packet is_reply)
          (inject_reply-sent first_entry free _ packet (entry_of c).0 (entry_of c).1 found),
      parse_captured-build_udp_response c.dst_ip c.src_ip c.dst_port c.src_port packet.payload hd
          hs,
    )

-- A reply that arrives through both relays is injected twice, since each receiving thread has its
-- own set: whatever the first thread does with it, the second one injects its copy, when there is a
-- connection to answer and neither thread has seen the number.
pub reply_injected_twice :
    (first_entry : FirstEntry) (free : Bool) (p : WinDivertProxy) (a b : Bytes) (x y : PlgPacket)
    (key : ReverseKey) (end : LocalEnd)
    → parse a ≡ some x
    → parse b ≡ some y
    → is_keepalive x ≡ false
    → is_keepalive y ≡ false
    → x.seq_number ≡ y.seq_number
    → elem x.seq_number p.seen_primary ≡ false
    → elem y.seq_number p.seen_backup ≡ false
    → first_entry p.reverse_map ≡ some (key, end)
    → let q = (receive_primary first_entry free p a).0 in
      let raw = build_udp_response key.remote_ip end.ip key.remote_port end.port in
      ((receive_primary first_entry free p a).1 ≡ inject (raw x.payload) ∷ [])
      × ((receive_backup first_entry free q b).1 ≡ inject (raw y.payload) ∷ [])
reply_injected_twice first_entry free p a b x y key end ha hb ka kb same ua ub found =
    let first =
      receive_primary-inject_reply first_entry free p a x
        (record { parsed = ha; no_keepalive = ka; unseen = ua }) in
    let p' = record p { seen_primary = limited (x.seq_number ∷ p.seen_primary) } in
    let q = (inject_reply first_entry free p' x).0 in
    let frame = inject_reply-frame first_entry free p' x in
    let second = receive_backup-inject_reply first_entry free q b y (record {
      parsed = hb;
      no_keepalive = kb;
      unseen = subst (λ s. elem y.seq_number s ≡ false) (sym frame.1) ub;
    }) in
    (
      rw first (inject_reply-sent first_entry free p' x key end found),
      rw first (
          rw second (
            inject_reply-sent first_entry free
              (record q { seen_backup = limited (y.seq_number ∷ q.seen_backup) }) y key end
              (ap first_entry frame.0 ∙ found))),
    )
