-- ===== src/Client/Proxy/Rounds.antt =====
-- client/src-tauri/src/udp_proxy.rs: the round of each task keeps the machine types.
use plgames_booster_up.Base.{
  ℕ, ◌<◌, ◌≤◌, ◌^◌, ◌+◌, ◌-◌, ◌*◌, ◌%◌, ◌==◌, Bytes, Option, none, some, List, [], ◌∷◌, arith,
  length, IsBytes, All, Option-cases, Bool-cases, inl, inr, ltb,
}
use plgames_booster_up.Base.Maps.{get, remove, insert}
use plgames_booster_up.Net.{SocketAddr}
use plgames_booster_up.Client.Protocol.{
  PlgPacket, IsPacket, data_packet, keepalive, with_multipath, encode, parse, is_keepalive,
  header_size,
}
use plgames_booster_up.Client.Proxy.{
  UdpProxy, Sent, to_relay, to_backup, game_datagram, relay_datagram, backup_datagram,
  keepalive_tick, keepalive_answer, deliver, limited, elem, max_seen, retain_recent, next_seq,
  count_sent,
}
use plgames_booster_up.Client.Proxy.Types.{
  IsProxy, IsSent, IsBytes-encode, parse-IsPacket, IsPacket-data, IsPacket-keepalive,
}

-- What a step leaves: a well-typed proxy, which has sent bytes.
abbrev pub IsRound : UdpProxy × List Sent → Type 0
IsRound r = IsProxy r.0 × All IsSent r.1

-- A datagram to the relay, and a second one to the backup relay if there is one.
copies-IsRound :
    (alone doubled : UdpProxy) (addr : SocketAddr) (first second : Bytes)
    (backup : Option SocketAddr)
    → IsProxy alone
    → IsProxy doubled
    → IsBytes first × (header_size ≤ length first)
    → IsBytes second × (header_size ≤ length second)
    → IsRound (elim backup [
      | none ↦ (alone, to_relay addr first ∷ [])
      | some other ↦ (doubled, to_relay addr first ∷ to_backup other second ∷ [])
    ])
copies-IsRound alone doubled addr first second none va vd h k = (va, (h, tt))
copies-IsRound alone doubled addr first second (some other) va vd h k = (vd, (h, (k, tt)))

pub game_datagram-IsRound :
    (p : UdpProxy) (src : SocketAddr) (payload : Bytes)
    → IsProxy p
    → IsBytes payload
    → IsRound (game_datagram p src payload)
unfolding game_datagram
game_datagram-IsRound p src payload v h =
    let (plain, twin) =
      IsPacket-data p.session_token p.seq_counter payload v.session_token v.seq_counter h in
    let first = IsBytes-encode (data_packet p.session_token p.seq_counter payload) plain in
    let second =
      IsBytes-encode (with_multipath (data_packet p.session_token p.seq_counter payload) 1) twin in
    let sent : IsProxy
        (count_sent (length payload) (next_seq (record p { game_addr = some src }))) =
      record {
        seq_counter = omega arith;
        session_token = v.session_token;
        duplicates_dropped = v.duplicates_dropped;
        stats = record {
          packets_sent = omega arith;
          packets_received = v.stats.packets_received;
          bytes_sent = omega arith;
          bytes_received = v.stats.bytes_received;
          duplicates_dropped = v.stats.duplicates_dropped;
        };
        seen_seqs = v.seen_seqs;
        few = v.few;
        keepalive_sent = v.keepalive_sent;
      } in
    copies-IsRound (count_sent (length payload) (next_seq (record p { game_addr = some src })))
      (count_sent (length payload) (next_seq (record p { game_addr = some src }))) p.relay_addr
      (encode (data_packet p.session_token p.seq_counter payload))
      (encode (with_multipath (data_packet p.session_token p.seq_counter payload) 1)) p.backup sent
      sent first second

limited-All : (seen : List ℕ) → All (λ s. s < 2 ^ 32) seen → All (λ s. s < 2 ^ 32) (limited seen)
unfolding limited
limited-All seen h = elim (Bool-cases (ltb max_seen (length seen))) [
  | inl full ↦ rw full tt
  | inr room ↦ rw room h
]

limited-few : (seen : List ℕ) → length (limited seen) ≤ max_seen
unfolding limited
limited-few seen = ground arith

deliver-IsRound :
    (p : UdpProxy) (packet : PlgPacket) → IsProxy p → IsPacket packet → IsRound (deliver p packet)
unfolding deliver
deliver-IsRound p packet v h = elim (Bool-cases (elem packet.seq_number p.seen_seqs)) [
  | inl seen ↦
      rw (seen, deliver)
        (
          record {
            seq_counter = v.seq_counter;
            session_token = v.session_token;
            duplicates_dropped = omega arith;
            stats = v.stats;
            seen_seqs = v.seen_seqs;
            few = v.few;
            keepalive_sent = v.keepalive_sent;
          },
          tt,
        )
  | inr new ↦
      let noted : IsProxy (record p { seen_seqs = limited (packet.seq_number ∷ p.seen_seqs) }) =
        record {
          seq_counter = v.seq_counter;
          session_token = v.session_token;
          duplicates_dropped = v.duplicates_dropped;
          stats = v.stats;
          seen_seqs = limited-All (packet.seq_number ∷ p.seen_seqs) (h.seq_fits, v.seen_seqs);
          few = limited-few (packet.seq_number ∷ p.seen_seqs);
          keepalive_sent = v.keepalive_sent;
        } in
      elim (Option-cases p.game_addr) [
        | inl nobody ↦ rw (new, deliver) (rw nobody (noted, tt))
        | inr (addr, known) ↦
            rw (new, deliver)
              (rw known (
                record {
                  seq_counter = v.seq_counter;
                  session_token = v.session_token;
                  duplicates_dropped = v.duplicates_dropped;
                  stats = record {
                    packets_sent = v.stats.packets_sent;
                    packets_received = omega arith;
                    bytes_sent = v.stats.bytes_sent;
                    bytes_received = omega arith;
                    duplicates_dropped = v.duplicates_dropped;
                  };
                  seen_seqs = noted.seen_seqs;
                  few = noted.few;
                  keepalive_sent = v.keepalive_sent;
                },
                (h.payload_fits, tt),
              ))
      ]
]

abbrev KeysFit : List (ℕ × ℕ) → Type 0
KeysFit = All (λ e. e.0 < 2 ^ 32)

remove-KeysFit : (seq : ℕ) (m : List (ℕ × ℕ)) → KeysFit m → KeysFit (remove seq m)
unfolding remove
remove-KeysFit seq [] h = tt
remove-KeysFit seq ((k, t) ∷ m) h = elim (Bool-cases (k == seq)) [
  | inl same ↦ rw (same, remove) (remove-KeysFit seq m h.1)
  | inr other ↦ rw (other, remove) (h.0, remove-KeysFit seq m h.1)
]

insert-KeysFit :
    (seq now : ℕ) (m : List (ℕ × ℕ)) → seq < 2 ^ 32 → KeysFit m → KeysFit (insert seq now m)
unfolding insert
insert-KeysFit seq now m fits h = (fits, remove-KeysFit seq m h)

retain_recent-KeysFit :
    (now minute : ℕ) (m : List (ℕ × ℕ)) → KeysFit m → KeysFit (retain_recent now minute m)
unfolding retain_recent
retain_recent-KeysFit now minute [] h = tt
retain_recent-KeysFit now minute ((k, t) ∷ m) h = elim (Bool-cases (ltb (now - t) minute)) [
  | inl young ↦ rw young (h.0, retain_recent-KeysFit now minute m h.1)
  | inr old ↦ rw old (retain_recent-KeysFit now minute m h.1)
]

keepalive_answer-IsProxy :
    (p : UdpProxy) (now seq : ℕ) → IsProxy p → IsProxy (keepalive_answer p now seq)
unfolding keepalive_answer
keepalive_answer-IsProxy p now seq v = elim (Option-cases (get seq p.keepalive_sent)) [
  | inl unknown ↦ rw (unknown, keepalive_answer) v
  | inr (sent_time, found) ↦
      rw (found, keepalive_answer)
        (record {
          seq_counter = v.seq_counter;
          session_token = v.session_token;
          duplicates_dropped = v.duplicates_dropped;
          stats = record {
            packets_sent = v.stats.packets_sent;
            packets_received = v.stats.packets_received;
            bytes_sent = v.stats.bytes_sent;
            bytes_received = v.stats.bytes_received;
            duplicates_dropped = v.stats.duplicates_dropped;
          };
          seen_seqs = v.seen_seqs;
          few = v.few;
          keepalive_sent = remove-KeysFit seq p.keepalive_sent v.keepalive_sent;
        })
]

pub relay_datagram-IsRound :
    (p : UdpProxy) (now : ℕ) (bytes : Bytes)
    → IsProxy p
    → IsBytes bytes
    → IsRound (relay_datagram p now bytes)
unfolding relay_datagram
relay_datagram-IsRound p now bytes v h = elim (Option-cases (parse bytes)) [
  | inl short ↦ rw (short, relay_datagram) (v, tt)
  | inr (packet, parsed) ↦ elim (Bool-cases (is_keepalive packet)) [
    | inl alive ↦
        rw (parsed, relay_datagram)
          (rw alive (keepalive_answer-IsProxy p now packet.seq_number v, tt))
    | inr plain ↦
        rw (parsed, relay_datagram)
          (rw plain (deliver-IsRound p packet v (parse-IsPacket bytes packet h parsed)))
  ]
]

pub backup_datagram-IsRound :
    (p : UdpProxy) (bytes : Bytes) → IsProxy p → IsBytes bytes → IsRound (backup_datagram p bytes)
unfolding backup_datagram
backup_datagram-IsRound p bytes v h = elim (Option-cases (parse bytes)) [
  | inl short ↦ rw (short, backup_datagram) (v, tt)
  | inr (packet, parsed) ↦ elim (Bool-cases (is_keepalive packet)) [
    | inl alive ↦ rw (parsed, backup_datagram) (rw alive (v, tt))
    | inr plain ↦
        rw (parsed, backup_datagram)
          (rw plain (deliver-IsRound p packet v (parse-IsPacket bytes packet h parsed)))
  ]
]

-- The numbers that a tick takes, with the entry of the first one.
ticked-IsProxy :
    (p : UdpProxy) (n : ℕ) (times : List (ℕ × ℕ))
    → IsProxy p
    → n < 2 ^ 32
    → KeysFit times
    → IsProxy (record p { seq_counter = n; keepalive_sent = times })
ticked-IsProxy p n times v fits keys = record {
  seq_counter = fits;
  session_token = v.session_token;
  duplicates_dropped = v.duplicates_dropped;
  stats = v.stats;
  seen_seqs = v.seen_seqs;
  few = v.few;
  keepalive_sent = keys;
}

pub keepalive_tick-IsRound :
    (second : ℕ) (p : UdpProxy) (now : ℕ) → IsProxy p → IsRound (keepalive_tick second p now)
unfolding keepalive_tick
keepalive_tick-IsRound second p now v =
    let next = (p.seq_counter + 1) % 2 ^ 32 in
    let fits : next < 2 ^ 32 = omega arith in
    let recent = retain_recent now (60 * second) (insert p.seq_counter now p.keepalive_sent) in
    let times =
      retain_recent-KeysFit now (60 * second) (insert p.seq_counter now p.keepalive_sent)
        (insert-KeysFit p.seq_counter now p.keepalive_sent v.seq_counter v.keepalive_sent) in
    let first =
      IsBytes-encode (keepalive p.session_token p.seq_counter)
        (IsPacket-keepalive p.session_token p.seq_counter v.session_token v.seq_counter) in
    let second_one =
      IsBytes-encode (keepalive p.session_token next)
        (IsPacket-keepalive p.session_token next v.session_token fits) in
    copies-IsRound (record p { seq_counter = next; keepalive_sent = recent })
      (record p { seq_counter = (next + 1) % 2 ^ 32; keepalive_sent = recent }) p.relay_addr
      (encode (keepalive p.session_token p.seq_counter)) (encode (keepalive p.session_token next))
      p.backup (ticked-IsProxy p next recent v fits times)
      (ticked-IsProxy p ((next + 1) % 2 ^ 32) recent v (omega arith) times) first second_one

pub backed-IsRound :
    (p : UdpProxy) (bytes : Bytes) (backup : Option SocketAddr)
    → IsProxy p
    → IsBytes bytes
    → IsRound (elim backup [ none ↦ (p, []) | some addr ↦ backup_datagram p bytes ])
backed-IsRound p bytes none v h = (v, tt)
backed-IsRound p bytes (some addr) v h = backup_datagram-IsRound p bytes v h
