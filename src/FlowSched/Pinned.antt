-- ===== src/FlowSched/Pinned.antt =====
-- The hash of a pinned flow is a function of the flow's key, and never one of the two reserved values.
use mqcpn.Prelude.{
  ℕ, zero, suc, ◌+◌, ◌/◌, ◌%◌, ◌≡◌, ◌≢◌, ◌≤◌, ◌<◌, refl, ap, ◌∙◌, sym, arith, Bool, List, [], ◌∷◌,
  ◌&&◌, ◌||◌, ◌++◌, ◌==◌, if◌then◌else◌, length, take, drop, length-drop,
}
use mqcpn.Prelude.Bits.{bit_or_fields}
use mqcpn.Reorder.Packet.{FlowKey, Verdict, byte_at, port_at, twelve_zeros}
use mqcpn.Icmp.{copy4}
use mqcpn.Icmp.Checksum.{Octets}
use mqcpn.Icmp.Reply.{octet_at}
use mqcpn.FlowSched.{unpinned, fnv1a_offset, flow_hash_update_byte, flow_hash_finish, feed}

-- The hash by the flow's key alone: the addresses, the protocol, the ports.
unfoldable pub hash_of_key : FlowKey → ℕ
hash_of_key key =
    let n = if key.ip_version == 4 then 4 else 16 in
    let ports =
      key.src_port / 256 ∷ key.src_port % 256 ∷ key.dst_port / 256 ∷ key.dst_port % 256 ∷ [] in
    flow_hash_finish (
      feed
        (flow_hash_update_byte (feed fnv1a_offset (take n key.src_ip ++ take n key.dst_ip))
          key.proto)
        ports)

-- The hash of an IPv4 fragment: the addresses, the protocol, the identification.
unfoldable pub hash_of_fragment : List ℕ → ℕ
hash_of_fragment pkt = flow_hash_finish (
    feed
      (flow_hash_update_byte (feed fnv1a_offset (take 4 (drop 12 pkt) ++ take 4 (drop 16 pkt)))
        (byte_at pkt 9))
      (byte_at pkt 4 ∷ byte_at pkt 5 ∷ []))

-- TCP is pinned, and UDP when that is asked for.
abbrev pub pins : ℕ → Bool → Bool
pins proto udp_pin = proto == 6 || (proto == 17 && udp_pin)

-- The hash that a packet with the verdict of the parser must have.
abbrev pub HashFor : List ℕ → ℕ → Bool → Verdict → Type 0
HashFor pkt hash udp_pin (Verdict.tcp key) = hash ≡ hash_of_key key
HashFor pkt hash udp_pin (Verdict.udp key) = hash ≡ (if udp_pin then hash_of_key key else unpinned)
HashFor pkt hash udp_pin Verdict.fragment =
    hash ≡ (if pins (byte_at pkt 9) udp_pin then hash_of_fragment pkt else unpinned)
HashFor pkt hash udp_pin Verdict.other = hash ≡ unpinned
HashFor pkt hash udp_pin Verdict.malformed = Unit

byte_at-drop : (i k : ℕ) (bytes : List ℕ) → byte_at (drop i bytes) k ≡ byte_at bytes (i + k)
byte_at-drop zero k bytes = ap (byte_at bytes) (omega arith)
byte_at-drop (suc i) k [] = refl
byte_at-drop (suc i) k (x ∷ bytes) =
    byte_at-drop i k bytes
    ∙ ap (byte_at (x ∷ bytes)) (let same : suc (i + k) ≡ suc i + k = omega arith in same)

first_four : (bytes : List ℕ) → 4 ≤ length bytes → take 4 bytes ≡ copy4 bytes 0
first_four (a ∷ b ∷ c ∷ d ∷ bytes) le = refl
first_four [] le = absurd (omega arith)
first_four (a ∷ []) le = absurd (omega arith)
first_four (a ∷ b ∷ []) le = absurd (omega arith)
first_four (a ∷ b ∷ c ∷ []) le = absurd (omega arith)

four_bytes : (i : ℕ) (pkt : List ℕ) → i + 4 ≤ length pkt → take 4 (drop i pkt) ≡ copy4 pkt i
four_bytes i pkt le =
    let at = λ (k : ℕ). byte_at-drop i k pkt in
    let same : i + 0 ≡ i = omega arith in
    first_four (drop i pkt) (omega (arith, length-drop i pkt))
    ∙ rw (at 0, at 1, at 2, at 3, same) refl

take_twice : (n : ℕ) (bytes : List ℕ) → take n (take n bytes) ≡ take n bytes
take_twice zero bytes = refl
take_twice (suc n) [] = refl
take_twice (suc n) (x ∷ bytes) = ap (λ (rest : List ℕ). x ∷ rest) (take_twice n bytes)

take-none : (n : ℕ) → take {A = ℕ} n [] ≡ []
take-none zero = refl
take-none (suc n) = refl

drop-none : (n : ℕ) → drop {A = ℕ} n [] ≡ []
drop-none zero = refl
drop-none (suc n) = refl

take_more : (m n : ℕ) (bytes : List ℕ) → take (m + n) bytes ≡ take m bytes ++ take n (drop m bytes)
take_more zero n bytes = ap (λ (k : ℕ). take k bytes) (omega arith)
take_more (suc m) n [] = take-none (suc m + n) ∙ sym (take-none n)
take_more (suc m) n (x ∷ bytes) =
    let same : suc m + n ≡ suc (m + n) = omega arith in
    ap (λ (k : ℕ). take k (x ∷ bytes)) same ∙ ap (λ (rest : List ℕ). x ∷ rest) (take_more m n bytes)

drop_more : (m n : ℕ) (bytes : List ℕ) → drop n (drop m bytes) ≡ drop (m + n) bytes
drop_more zero n bytes = ap (λ (k : ℕ). drop k bytes) (omega arith)
drop_more (suc m) n [] = drop-none n ∙ sym (drop-none (suc m + n))
drop_more (suc m) n (x ∷ bytes) =
    drop_more m n bytes
    ∙ ap (λ (k : ℕ). drop k (x ∷ bytes)) (let same : suc (m + n) ≡ suc m + n = omega arith in same)

port_bytes :
    (pkt : List ℕ) (i : ℕ)
    → Octets pkt
    → (port_at pkt i / 256 ≡ byte_at pkt i) × (port_at pkt i % 256 ≡ byte_at pkt (i + 1))
port_bytes pkt i o =
    let hi = octet_at pkt i o in
    let lo = octet_at pkt (i + 1) o in
    let joined = bit_or_fields 8 (byte_at pkt i) (byte_at pkt (i + 1)) lo in
    (omega (arith, joined), omega (arith, joined))

abbrev ports_of : List ℕ → ℕ → List ℕ
ports_of pkt i =
    port_at pkt i / 256
    ∷ port_at pkt i % 256
    ∷ port_at pkt (i + 2) / 256
    ∷ port_at pkt (i + 2) % 256
    ∷ []

ports_of_lem :
    (pkt : List ℕ) (i : ℕ) → Octets pkt → i + 4 ≤ length pkt → take 4 (drop i pkt) ≡ ports_of pkt i
ports_of_lem pkt i o le =
    let (a, b) = port_bytes pkt i o in
    let (c, d) = port_bytes pkt (i + 2) o in
    let same : i + 2 + 1 ≡ i + 3 = omega arith in rw (a, b, c, d, same) (four_bytes i pkt le)

-- A finished hash is neither of the reserved values.
pub flow_hash_finish-between : (h : ℕ) → (0 < flow_hash_finish h) × (flow_hash_finish h ≢ unpinned)
unfolding flow_hash_finish
flow_hash_finish-between h = (ground arith, ground arith)

module _ (pkt : List ℕ) where
  abbrev pub key_v4 : ℕ → FlowKey
  key_v4 ihl = record {
    ip_version = 4;
    proto = byte_at pkt 9;
    src_port = port_at pkt ihl;
    dst_port = port_at pkt (ihl + 2);
    src_ip = take 4 (drop 12 pkt) ++ twelve_zeros;
    dst_ip = take 4 (drop 16 pkt) ++ twelve_zeros;
  }

  addresses_v4 : take 8 (drop 12 pkt) ≡ take 4 (drop 12 pkt) ++ take 4 (drop 16 pkt)
  addresses_v4 =
      take_more 4 4 (drop 12 pkt)
      ∙ ap (λ (t : List ℕ). take 4 (drop 12 pkt) ++ take 4 t) (drop_more 12 4 pkt)

  pub hash_fragment :
      flow_hash_finish (
        flow_hash_update_byte
          (flow_hash_update_byte
            (flow_hash_update_byte (feed fnv1a_offset (take 8 (drop 12 pkt))) (byte_at pkt 9))
            (byte_at pkt 4))
          (byte_at pkt 5))
      ≡ hash_of_fragment pkt
  unfolding hash_of_fragment feed
  hash_fragment = rw addresses_v4 refl

  pub hash_v4 :
      Octets pkt
      → (ihl : ℕ) → 20 ≤ length pkt
      → ihl + 4 ≤ length pkt
      → flow_hash_finish (
          feed
            (flow_hash_update_byte (feed fnv1a_offset (take 8 (drop 12 pkt))) (byte_at pkt 9))
            (take 4 (drop ihl pkt)))
        ≡ hash_of_key (key_v4 ihl)
  unfolding hash_of_key
  hash_v4 o ihl header ports =
      let src = four_bytes 12 pkt (omega arith) in
      let dst = four_bytes 16 pkt (omega arith) in
      rw (addresses_v4, ports_of_lem pkt ihl o ports, src, dst) refl

  abbrev pub key_v6 : FlowKey
  key_v6 = record {
    ip_version = 6;
    proto = byte_at pkt 6;
    src_port = port_at pkt 40;
    dst_port = port_at pkt 42;
    src_ip = take 16 (drop 8 pkt);
    dst_ip = take 16 (drop 24 pkt);
  }

  pub hash_v6 :
      Octets pkt
      → 44 ≤ length pkt
      → flow_hash_finish (
          feed
            (flow_hash_update_byte (feed fnv1a_offset (take 32 (drop 8 pkt))) (byte_at pkt 6))
            (take 4 (drop 40 pkt)))
        ≡ hash_of_key key_v6
  unfolding hash_of_key
  hash_v6 o long =
      let addresses : take 32 (drop 8 pkt) ≡ take 16 (drop 8 pkt) ++ take 16 (drop 24 pkt) =
        take_more 16 16 (drop 8 pkt)
        ∙ ap (λ (t : List ℕ). take 16 (drop 8 pkt) ++ take 16 t) (drop_more 8 16 pkt) in
      rw
        (
          addresses,
          ports_of_lem pkt 40 o (omega arith),
          take_twice 16 (drop 8 pkt),
          take_twice 16 (drop 24 pkt),
        )
        refl
