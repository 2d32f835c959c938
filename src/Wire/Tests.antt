-- ===== src/Wire/Tests.antt =====
-- A packet of three bytes on the link.
use zway_lib.Base.{ℕ, ◌≡◌, refl, Bool, true, some, List, [], ◌∷◌, ◌++◌, arith}
use zway_lib.Buffer.{of_bytes}
use zway_lib.Packet.{Head}
use zway_lib.Wire.{send_packet, recv_packet, sent, received, waiting, client_recv}
use zway_lib.Wire.RoundTrip.{FitsHead, wire, delivered, recv_packet-send_packet}
use zway_lib.Wire.Bounds.{Consumed, recv_packet-Consumed}

abbrev plenty : ℕ → Bool
plenty n = true

abbrev head_of : ℕ → Head
head_of n = record {
  id = 1;
  stream_id = 70000;
  stream_type = 3;
  part = 1;
  parts = 2;
  body_size = n;
}

abbrev body : List ℕ
body = 10 ∷ 11 ∷ 12 ∷ []

fits3 : FitsHead (head_of 3)
fits3 = record {
  id_fits = omega arith;
  stream_id_fits = omega arith;
  stream_type_fits = omega arith;
  part_fits = omega arith;
  parts_fits = omega arith;
  body_size_fits = omega arith;
}

fits0 : FitsHead (head_of 0)
fits0 = record {
  id_fits = omega arith;
  stream_id_fits = omega arith;
  stream_type_fits = omega arith;
  part_fits = omega arith;
  parts_fits = omega arith;
  body_size_fits = omega arith;
}

-- A link without a byte, and one with less than a head: the call waits.
recv_nothing : recv_packet plenty [] ≡ (waiting, [])
unfolding recv_packet client_recv
recv_nothing = refl

recv_cut : recv_packet plenty (1 ∷ 2 ∷ []) ≡ (waiting, [])
unfolding recv_packet client_recv
recv_cut = refl

recv_packet-send_packet_example :
    (send_packet (9 ∷ []) (record { m_head = head_of 3; m_body = some (of_bytes body) })
      ≡ some ((9 ∷ []) ++ wire (head_of 3) body, sent 27))
    × (recv_packet plenty (wire (head_of 3) body ++ (5 ∷ []))
        ≡ (received (delivered (head_of 3) body) 27, 5 ∷ []))
recv_packet-send_packet_example =
    recv_packet-send_packet plenty (head_of 3) body (of_bytes body) (9 ∷ []) (5 ∷ []) fits3
      (omega arith) (omega arith) (omega arith) refl refl

recv_packet-Consumed_example :
    Consumed plenty
      (wire (head_of 3) body ++ (5 ∷ []))
      (recv_packet plenty (wire (head_of 3) body ++ (5 ∷ []))).0
      (recv_packet plenty (wire (head_of 3) body ++ (5 ∷ []))).1
recv_packet-Consumed_example = recv_packet-Consumed plenty (wire (head_of 3) body ++ (5 ∷ []))
