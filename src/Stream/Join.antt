-- ===== src/Stream/Join.antt =====
-- One call of `StreamReceiver::process` on a `BufferReceiver` (src/streamreceiver.cpp,
-- src/bufferreceiver.cpp), for the next packet of a stream.
use zway_lib.Base.{
  ℕ, ◌+◌, ◌-◌, ◌*◌, ◌%◌, ◌⊎◌, ◌≡◌, ◌≤◌, ◌<◌, ◌∙◌, ◌++◌, ap, sym, Bool, true, false, not, ◌&&◌, none,
  some, List, [], arith, length, take, min, overwrite, length-overwrite, ltb, take-overwrite,
  take-all, ◌==◌,
}
use zway_lib.Buffer.{of_bytes}
use zway_lib.Buffer.Laws.{write-some}
use zway_lib.Packet.{Packet, u32, max_packet_body}
use zway_lib.Stream.Receiver.{BufferReceiver, process, process_packet, processed, completes, idle}
use zway_lib.Stream.Parts.{chunk, length-chunk, take-chunk, parts_of_bounds}
use zway_lib.Stream.Sender.{parts_of}

module _ (p : List ℕ) (id type : ℕ) (callback : Bool) where
  -- A receiver of the bytes `p` that took `k` parts and holds `q`; `part` is what it took for the last.
  abbrev pub receiver_at : ℕ → ℕ → List ℕ → BufferReceiver
  receiver_at k part q = record {
    m_id = id;
    m_type = type;
    m_status = idle;
    m_part = part;
    m_parts = parts_of (length p);
    m_callback = callback;
    m_buffer = of_bytes q;
    m_bytes_received = min (length p) (k * 65536);
    calls = [];
  }

module _ (p : List ℕ) (id type : ℕ) where
  -- Part `k`, from 0, as it comes in.
  abbrev pub part_at : ℕ → Packet
  part_at k = record {
    m_head = record {
      id = 0;
      stream_id = id;
      stream_type = type;
      part = k + 1;
      parts = parts_of (length p);
      body_size = min 65536 (length p - k * 65536);
    };
    m_body = some (of_bytes (chunk p k));
  }

-- What the receiver holds after part `k`.
abbrev pub joined : List ℕ → ℕ → List ℕ → List ℕ
joined p k q = overwrite q (k * 65536) (chunk p k)

-- The parts so far stand at the front of the buffer, which has room for all.
pub record Holds (p : List ℕ) (k : ℕ) (q : List ℕ) : Type 0 where
  pub room : length q ≡ parts_of (length p) * 65536
  pub front : take (min (length p) (k * 65536)) q ≡ take (min (length p) (k * 65536)) p

pub joined-Holds :
    (p : List ℕ) (k : ℕ) (q : List ℕ)
    → 0 < length p
    → k < parts_of (length p)
    → Holds p k q
    → Holds p (k + 1) (joined p k q)
joined-Holds p k q full below v = record {
  room = omega (arith, length-overwrite q (k * 65536) (chunk p k), v.room);
  front =
      take-overwrite q (k * 65536) (chunk p k) (min (length p) ((k + 1) * 65536)) upto
        (omega (arith, v.room, parts_of_bounds (length p) full))
      ∙ ap (λ l. l ++ chunk p k) before
      ∙ sym (
          take-chunk p k (min (length p) ((k + 1) * 65536))
            (omega (arith, upto, length-chunk p k)));
}
  where
    inside : min (length p) (k * 65536) ≡ k * 65536
    inside = omega (arith, parts_of_bounds (length p) full)

    upto : min (length p) ((k + 1) * 65536) ≡ k * 65536 + length (chunk p k)
    upto = omega (arith, length-chunk p k, parts_of_bounds (length p) full)

    before : take (k * 65536) q ≡ take (k * 65536) p
    before = rw inside at v.front

pub in_order :
    (k part : ℕ)
    → k < 65536
    → (k ≡ 0) ⊎ (part ≡ k)
    → (ltb 1 (k + 1) && not (k + 1 == (part + 1) % u32)) ≡ false
in_order k part small follows = ground arith

module _ (p : List ℕ) (id type : ℕ) (callback : Bool) where
  pub process_packet_at :
      (k part : ℕ) (q : List ℕ)
      → 0 < length p
      → length p + 65536 ≤ u32
      → k < parts_of (length p)
      → Holds p k q
      → process_packet (receiver_at p id type callback k part q) (part_at p id type k)
        ≡ some (some (receiver_at p id type callback (k + 1) part (joined p k q)))
  unfolding process_packet
  process_packet_at k part q full fits below v = rw (
    place,
    write-some q (chunk p k) (min 65536 (length p - k * 65536)) (k * 65536) some_room,
    fitting,
    take-all (min 65536 (length p - k * 65536)) (chunk p k) (omega (arith, length-chunk p k)),
    sum,
  )
    where
      few : k < 65536
      few = omega (arith, parts_of_bounds (length p) full)

      some_room : 0 < length q
      some_room = omega (arith, v.room, parts_of_bounds (length p) full)

      place : ((k + 1 + u32 - 1) % u32 * max_packet_body) % u32 ≡ k * 65536
      place = omega (arith, few)

      fitting :
          min (min 65536 (length p - k * 65536)) (length q - k * 65536)
          ≡ min 65536 (length p - k * 65536)
      fitting = omega (arith, v.room, parts_of_bounds (length p) full)

      sum :
          (min (length p) (k * 65536) + min 65536 (length p - k * 65536)) % u32
          ≡ min (length p) ((k + 1) * 65536)
      sum = omega arith

  pub process_at :
      (k part : ℕ) (q : List ℕ)
      → 0 < length p
      → length p + 65536 ≤ u32
      → k < parts_of (length p)
      → (k ≡ 0) ⊎ (part ≡ k)
      → Holds p k q
      → process (receiver_at p id type callback k part q) (part_at p id type k)
        ≡ some (true, completes (receiver_at p id type callback (k + 1) (k + 1) (joined p k q)))
  unfolding process
  process_at k part q full fits below follows v =
      rw (in_order k part (omega (arith, parts_of_bounds (length p) full)) follows) (
        ap
          (λ x. elim x [
            | none ↦ none
            | some result ↦
                some (processed (receiver_at p id type callback k part q) (k + 1) result)
          ])
          (process_packet_at k part q full fits below v))
