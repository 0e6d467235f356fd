-- ===== src/Icmp/Tests.antt =====
-- Runs of the ICMP code, and its theorems at concrete packets.
use mqcpn.Prelude.{
  ℕ, zero, suc, ◌≡◌, ◌≤◌, ◌<◌, ◌⊎◌, refl, Bool, true, ◌&&◌, none, some, ltb, List, [], ◌∷◌, ◌++◌,
  length, arith,
}
use mqcpn.Icmp.{icmp_send_v4, icmp_send_v6, ipv4_checksum, sum_joined, complement, fold_carries}
use mqcpn.Icmp.Checksum.{Octets}
use mqcpn.Icmp.Reply.{HasHeader, Answers, icmp_send_v4_lem}
use mqcpn.Icmp.ReplyV6.{AnswersV6, icmp_send_v6_lem}

abbrev pub all_octets : List ℕ → Bool
all_octets [] = true
all_octets (b ∷ bytes) = ltb b 256 && all_octets bytes

pub all_octets-Octets : (bytes : List ℕ) → all_octets bytes ≡ true → Octets bytes
all_octets-Octets [] h = tt
all_octets-Octets (b ∷ bytes) h = (ground (arith, h), all_octets-Octets bytes (ground (arith, h)))

abbrev pub zeros : ℕ → List ℕ
zeros zero = []
zeros (suc n) = 0 ∷ zeros n

-- A header with its checksum field zero; its checksum is 0xB861.
known_checksum :
    ipv4_checksum (
      (0x45 ∷ 0 ∷ 0 ∷ 0x73 ∷ 0 ∷ 0 ∷ 0x40 ∷ 0 ∷ 0x40 ∷ 0x11 ∷ [])
      ++ (0 ∷ 0 ∷ 0xC0 ∷ 0xA8 ∷ 0 ∷ 1 ∷ 0xC0 ∷ 0xA8 ∷ 0 ∷ 0xC7 ∷ []))
    ≡ 0xB861
unfolding ipv4_checksum sum_joined complement fold_carries
known_checksum = refl

abbrev too_big_v4 : List ℕ
too_big_v4 = 0x45 ∷ zeros 40

abbrev gateway : List ℕ
gateway = 10 ∷ 8 ∷ 0 ∷ 1 ∷ []

-- "Fragmentation needed", with the MTU.
icmp_send_v4_lem_example :
    (HasHeader too_big_v4
      × ((pkt : List ℕ) × (icmp_send_v4 gateway 3 4 1280 too_big_v4 ≡ some pkt)
          × Answers too_big_v4 pkt))
    ⊎ ((¬ HasHeader too_big_v4) × (icmp_send_v4 gateway 3 4 1280 too_big_v4 ≡ none))
icmp_send_v4_lem_example =
    icmp_send_v4_lem gateway too_big_v4 3 4 1280 (all_octets-Octets gateway refl)
      (all_octets-Octets too_big_v4 refl) (omega arith) (omega arith)

abbrev too_big_v6 : List ℕ
too_big_v6 = 0x60 ∷ zeros 60

abbrev gateway_v6 : List ℕ
gateway_v6 = 0xFE ∷ 0x80 ∷ zeros 14

-- "Packet too big"
icmp_send_v6_lem_example :
    ((40 ≤ length too_big_v6)
      × ((pkt : List ℕ) × (icmp_send_v6 gateway_v6 2 0 1280 too_big_v6 ≡ some pkt)
          × AnswersV6 too_big_v6 pkt))
    ⊎ ((length too_big_v6 < 40) × (icmp_send_v6 gateway_v6 2 0 1280 too_big_v6 ≡ none))
icmp_send_v6_lem_example =
    icmp_send_v6_lem gateway_v6 too_big_v6 2 0 1280 (all_octets-Octets gateway_v6 refl)
      (all_octets-Octets too_big_v6 refl) (omega arith) (omega arith)
