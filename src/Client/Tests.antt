-- ===== src/Client/Tests.antt =====
-- Calls over a connection that moves a few bytes at a time.
use zway_lib.Base.{
  ℕ, ◌≡◌, refl, Bool, true, false, some, List, [], ◌∷◌, ◌++◌, arith, length, take, drop, overwrite,
  replicate,
}
use zway_lib.Packet.{set_body}
use zway_lib.Wire
use zway_lib.Wire.{decode_head}
use zway_lib.Client.{
  Turn, no, yes, fatal, again, moves, Progress, returned, waiting, send, recv, minus_one,
}
use zway_lib.Client.Loops.{LeavesTurns, send-recv-IsSteady, recv-waits}
use zway_lib.Client.Packets.{fetched, headed, recv_packet, accepted}
use zway_lib.Client.Packets.Agree.{SameAs, recv_packet-SameAs, recv_packet-broken}

abbrev go : ℕ → Turn
go k = record { canceled = false; ready = yes; gnutls = moves k }

abbrev idle : Turn
idle = record { canceled = false; ready = no; gnutls = again }

abbrev breaks : Turn
breaks = record { canceled = false; ready = yes; gnutls = fatal }

abbrev cancels : Turn
cancels = record { canceled = true; ready = yes; gnutls = again }

abbrev bytes : List ℕ
bytes = 1 ∷ 2 ∷ 3 ∷ []

sends :
    send (go 2 ∷ idle ∷ go 5 ∷ idle ∷ []) bytes 3 []
    ≡ returned 3 (record { moved = bytes; link = bytes; turns = idle ∷ [] })
unfolding send
sends = refl

cut_short :
    recv (go 2 ∷ cancels ∷ []) 3 bytes
    ≡ returned 2 (record { moved = 1 ∷ 2 ∷ []; link = 3 ∷ []; turns = [] })
unfolding recv
cut_short = refl

-- A failure is -1.
fails :
    recv (go 2 ∷ breaks ∷ []) 3 bytes
    ≡ returned minus_one (record { moved = 1 ∷ 2 ∷ []; link = 3 ∷ []; turns = [] })
unfolding recv
fails = refl

send-recv-IsSteady_example :
    ((us : List Turn) × (send (go 2 ∷ idle ∷ go 2 ∷ go 1 ∷ []) bytes 3 (9 ∷ [])
        ≡ returned 3 (record { moved = take 3 bytes; link = (9 ∷ []) ++ take 3 bytes; turns = us }))
      × LeavesTurns (go 2 ∷ idle ∷ go 2 ∷ go 1 ∷ []) us 3)
    × ((us : List Turn) × (recv (go 2 ∷ idle ∷ go 2 ∷ go 1 ∷ []) 1 (9 ∷ [])
          ≡ returned 1 (record { moved = take 1 (9 ∷ []); link = drop 1 (9 ∷ []); turns = us }))
        × LeavesTurns (go 2 ∷ idle ∷ go 2 ∷ go 1 ∷ []) us 1)
send-recv-IsSteady_example =
    send-recv-IsSteady (go 2 ∷ idle ∷ go 2 ∷ go 1 ∷ []) bytes (9 ∷ []) 3 1 (ground arith)
      (omega arith) (omega arith) (omega arith) (omega arith)

recv-waits_example : recv (go 2 ∷ go 2 ∷ go 2 ∷ []) 24 bytes ≡ waiting
recv-waits_example = recv-waits (go 2 ∷ go 2 ∷ go 2 ∷ []) 24 bytes (ground arith) (omega arith)

-- A head that announces two bytes, with the first of them.
abbrev head_bytes : List ℕ
head_bytes =
    1 ∷ 0 ∷ 0 ∷ 0 ∷ 5 ∷ 0 ∷ 0 ∷ 0 ∷ 1 ∷ 0 ∷ 0 ∷ 0 ∷ 1 ∷ 0 ∷ 0 ∷ 0 ∷ 1 ∷ 0 ∷ 0 ∷ 0 ∷ 2 ∷ 0 ∷ 0 ∷ 0
    ∷ []

abbrev plenty : ℕ → Bool
plenty n = true

abbrev after_head : Progress
after_head = record { moved = head_bytes; link = 77 ∷ []; turns = go 1 ∷ breaks ∷ [] }

abbrev after_break : Progress
after_break = record { moved = 77 ∷ []; link = []; turns = [] }

recv_packet-broken_example :
    (recv_packet plenty (go 24 ∷ go 1 ∷ breaks ∷ []) (head_bytes ++ (77 ∷ []))
      ≡ fetched 23
          (set_body
            (headed head_bytes)
            (some (record {
              m_data =
                  some (overwrite (replicate (headed head_bytes).m_head.body_size 0) 0 (77 ∷ []));
              m_size = length (replicate {A = ℕ} (headed head_bytes).m_head.body_size 0);
            }))
            0)
          []
          [])
    × (accepted 23 ≡ true)
unfolding recv decode_head overwrite replicate
recv_packet-broken_example =
    recv_packet-broken plenty (go 24 ∷ go 1 ∷ breaks ∷ []) (head_bytes ++ (77 ∷ [])) after_head
      after_break refl (omega arith) (omega arith) refl refl

abbrev whole : List ℕ
whole = head_bytes ++ (77 ∷ 78 ∷ 9 ∷ [])

abbrev slow : List Turn
slow =
    go 1
    ∷ go 1
    ∷ go 1
    ∷ go 1
    ∷ go 1
    ∷ go 1
    ∷ go 1
    ∷ go 1
    ∷ go 1
    ∷ go 1
    ∷ go 1
    ∷ go 1
    ∷ go 1
    ∷ go 1
    ∷ go 1
    ∷ go 1
    ∷ go 1
    ∷ go 1
    ∷ go 1
    ∷ go 1
    ∷ go 1
    ∷ go 1
    ∷ go 1
    ∷ go 1
    ∷ go 1
    ∷ go 1
    ∷ go 1
    ∷ []

recv_packet-SameAs_example : SameAs (Wire.recv_packet plenty whole) (recv_packet plenty slow whole)
unfolding decode_head
recv_packet-SameAs_example =
    recv_packet-SameAs plenty slow whole (ground arith) (omega arith) (omega arith) (omega arith)
      refl
