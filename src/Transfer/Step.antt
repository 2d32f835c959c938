-- ===== src/Transfer/Step.antt =====
-- One round of a transfer: packet `k` is cut, carried and joined.
use zway_lib.Base.{
  ℕ, suc, ◌+◌, ◌-◌, ◌*◌, ◌%◌, ◌≡◌, ◌≤◌, ◌<◌, ◌∙◌, ap, refl, sym, Bool, true, false, some, none,
  List, [], arith, length, min, replicate, append-nil, ◌==◌, length-replicate, ◌⊎◌, Option,
}
use zway_lib.Buffer.{MemoryBuffer, of_bytes}
use zway_lib.Buffer.Laws.{copy_lem, create_null}
use zway_lib.Packet.{Head, u32, max_packet_body}
use zway_lib.Stream.Sender.{parts_of, buffer_hooks, process_buffer}
use zway_lib.Stream.Sender
use zway_lib.Stream.Receiver.{BufferReceiver, create_receiver, init}
use zway_lib.Stream.Receiver
use zway_lib.Stream.Parts.{chunk, parts_of_bounds}
use zway_lib.Stream.Cut.{sender_at, body_at, packet_at, length-body_at, take-body_at, process_at}
use zway_lib.Stream.Join
use zway_lib.Stream.Join.{receiver_at, part_at, joined, Holds}
use zway_lib.Wire.RoundTrip.{FitsHead, send_packet_lem, recv_packet_lem, wire, delivered}
use zway_lib.Wire.{recv_packet, received}
use zway_lib.Transfer.{carry, accept, transfer, next}

module _ (malloc : ℕ → Bool) (p : List ℕ) (id type : ℕ) (memory : (n : ℕ) → malloc n ≡ true)
    (id_fits : id < u32) (type_fits : type < u32) (full : 0 < length p)
    (fits : length p + 65536 ≤ u32) where
  head_at : ℕ → Head
  head_at k = (part_at p id type k).m_head

  head_at-FitsHead : (k : ℕ) → k < parts_of (length p) → FitsHead (head_at k)
  unfolding head_at
  head_at-FitsHead k below = record {
    id_fits = omega arith;
    stream_id_fits = id_fits;
    stream_type_fits = type_fits;
    part_fits = omega (arith, parts_of_bounds (length p) full);
    parts_fits = omega (arith, parts_of_bounds (length p) full);
    body_size_fits = omega arith;
  }

  pub carry_at :
      (callback : Bool) (k : ℕ)
      → k < parts_of (length p)
      → carry malloc (packet_at p id type callback k) ≡ some (part_at p id type k)
  unfolding carry head_at
  carry_at callback k below = rw (
    copy_lem malloc (of_bytes (body_at p k)) refl (memory (length (body_at p k)))
        (omega (arith, length-body_at p k)),
    some_bytes,
    send_packet_lem (head_at k) (body_at p k) (of_bytes (body_at p k)) (head_at-FitsHead k below)
        some_size (omega arith) (omega (arith, length-body_at p k)) [] refl,
    alone,
    take-body_at p k,
  )
    where
      some_size : 0 < min 65536 (length p - k * 65536)
      some_size = omega (arith, parts_of_bounds (length p) full)

      some_bytes : (min 65536 (length p - k * 65536) == 0) ≡ false
      some_bytes = ground (arith, some_size)

      alone :
          recv_packet malloc (wire (head_at k) (body_at p k))
          ≡ (received (delivered (head_at k) (body_at p k)) (24 + (head_at k).body_size), [])
      alone =
          ap (recv_packet malloc) (sym (append-nil (wire (head_at k) (body_at p k))))
          ∙ recv_packet_lem (head_at k) (body_at p k) (of_bytes (body_at p k))
              (head_at-FitsHead k below) some_size (omega arith) (omega (arith, length-body_at p k))
              malloc [] (memory (head_at k).body_size)

  -- The receiver that the first packet makes: room for all parts, zeroed.
  abbrev pub zeros : List ℕ
  zeros = replicate (parts_of (length p) * 65536) 0

  pub zeros-Holds : Holds p 0 zeros
  zeros-Holds = record {
    room = length-replicate {A = ℕ} (parts_of (length p) * 65536) 0;
    front = rw nothing;
  }
    where
      nothing : min (length p) (0 * 65536) ≡ 0
      nothing = omega arith

  pub create_first :
      (callback : Bool) (body : Option MemoryBuffer)
      → create_receiver malloc (record (part_at p id type 0) { m_body = body }) none callback
        ≡ some (receiver_at p id type callback 0 1 zeros)
  unfolding create_receiver
  create_first callback body =
      rw (whole, create_null malloc (parts_of (length p) * 65536) (memory _), nothing)
    where
      whole : (parts_of (length p) * max_packet_body) % u32 ≡ parts_of (length p) * 65536
      whole = omega (arith, parts_of_bounds (length p) full)

      nothing : min (length p) (0 * 65536) ≡ 0
      nothing = omega arith

  pub accept_first :
      (callback : Bool)
      → accept malloc callback none (part_at p id type 0)
        ≡ Receiver.process (receiver_at p id type callback 0 1 zeros) (part_at p id type 0)
  unfolding accept
  accept_first callback = rw (create_first callback (some (of_bytes (chunk p 0))))

  pub transfer_step :
      (callback : Bool) (fuel k part : ℕ) (body q : List ℕ) (r : Option BufferReceiver)
      → k < parts_of (length p)
      → length body ≡ 65536
      → (k ≡ 0) ⊎ (part ≡ k)
      → Holds p k q
      → accept malloc callback r (part_at p id type k)
        ≡ Receiver.process (receiver_at p id type callback k part q) (part_at p id type k)
      → transfer malloc (suc fuel) callback (of_bytes p) (sender_at p id type callback k body) r
        ≡ next malloc process_buffer
            (λ r' p'. accept malloc callback r' p')
            (λ b' s' r'. transfer malloc fuel callback b' s' r')
            (of_bytes p)
            (Sender.completes buffer_hooks (sender_at p id type callback (k + 1) (body_at p k)))
            (some
              (Receiver.completes (receiver_at p id type callback (k + 1) (k + 1) (joined p k q))))
  unfolding transfer
  transfer_step callback fuel k part body q r below wide follows v accepted = rw (
    process_at p id type callback full fits k body below wide,
    carry_at callback k below,
    accepted,
    Join.process_at p id type callback k part q full fits below follows v,
  )
