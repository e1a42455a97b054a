-- ===== src/Relay/Protocol/Roundtrip.antt =====
-- relay/src/protocol.rs: parsing and serialising undo one another.
use plgames_booster_up.Base.{◌+◌, ◌<◌, ◌≡◌, Bytes, none, some, ◌∷◌, arith, length, IsBytes}
use plgames_booster_up.Relay.Protocol.{PlgPacket, IsPacket, header_size, parse, serialize}

-- A packet whose fields fit their types is read back from its wire form.
pub parse-serialize : (p : PlgPacket) → IsPacket p → parse (serialize p) ≡ some p
unfolding parse serialize
parse-serialize p h = ground arith

-- Bytes that parse are the wire form of the packet they parse to, and that packet is well formed:
-- no two byte strings stand for one packet.
pub serialize-parse :
    (bytes : Bytes) (p : PlgPacket)
    → IsBytes bytes
    → parse bytes ≡ some p
    → (serialize p ≡ bytes) × IsPacket p
unfolding parse serialize
serialize-parse (a ∷ b ∷ c ∷ d ∷ e ∷ f ∷ g ∷ h ∷ i ∷ j ∷ rest) p ok parsed =
    (ground arith, ground arith)
serialize-parse bytes p ok parsed = ground arith

-- Parsing fails exactly on what is shorter than the header.
pub parse-eq-none : (bytes : Bytes) → parse bytes ≡ none → length bytes < header_size
unfolding parse
parse-eq-none bytes h = ground arith

pub length-serialize : (p : PlgPacket) → length (serialize p) ≡ header_size + length p.payload
unfolding serialize
length-serialize p = omega arith
