-- ===== src/Stream/Tests.antt =====
-- A receiver and packets out of order.
use zway_lib.Base.{ℕ, ◌≡◌, refl, Bool, true, false, some, [], ◌∷◌}
use zway_lib.Buffer.{of_bytes}
use zway_lib.Packet
use zway_lib.Packet.{Packet, set_part, set_parts, set_body}
use zway_lib.Stream.Receiver.{BufferReceiver, buffer_receiver, process}
use zway_lib.Stream.Accept.{Accepts, follows, written, process-Accepts}

-- Two of three parts have come.
abbrev under_way : BufferReceiver
under_way = record (buffer_receiver true) { m_part = 2; m_parts = 3; m_buffer = of_bytes (0 ∷ []) }

abbrev part : ℕ → Packet
part n = set_body (set_parts (set_part (Packet.create 0) n) 3) (some (of_bytes (9 ∷ []))) 0

refuses_repeated : process under_way (part 2) ≡ some (false, under_way)
unfolding process
refuses_repeated = refl

process-Accepts_example :
    (x : Bool × BufferReceiver) × (process under_way (part 3) ≡ some x)
    × Accepts under_way
        (part 3)
        (follows under_way (part 3))
        (written under_way (part 3) (of_bytes (9 ∷ [])))
        x
process-Accepts_example = process-Accepts under_way (part 3) (of_bytes (9 ∷ [])) refl
