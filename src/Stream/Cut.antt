-- ===== src/Stream/Cut.antt =====
-- One call of `StreamSender::process` on a `BufferSender` (src/streamsender.cpp, src/buffersender.cpp).
use zway_lib.Base.{
  ℕ, ◌+◌, ◌-◌, ◌*◌, ◌%◌, ◌≡◌, ◌≤◌, ◌<◌, ◌∙◌, Bool, true, false, ◌&&◌, some, List, [], arith, length,
  take, take-overwrite, min, replicate, overwrite, length-overwrite, length-replicate, ltb,
  if◌then◌else◌, ◌==◌,
}
use zway_lib.Buffer.{of_bytes, read}
use zway_lib.Buffer.Laws.{read-some, clear-of_bytes}
use zway_lib.Packet.{Packet, u32, max_packet_body}
use zway_lib.Stream.Sender.{StreamSender, parts_of, process_buffer, buffer_hooks, completes, idle}
use zway_lib.Stream.Parts.{chunk, length-chunk, parts_of_bounds}

-- How many bytes `process` asks for, in the source's `uint32_t` arithmetic.
abbrev pub to_send : ℕ → ℕ → ℕ
to_send m_size m_part =
    let bytes_left = (m_size + u32 - (m_part * max_packet_body) % u32) % u32 in
    if ltb 0 m_size && ltb bytes_left max_packet_body then bytes_left else max_packet_body

pub to_send-eq-min :
    (n k : ℕ)
    → 0 < n
    → n + 65536 ≤ u32
    → k < parts_of n
    → (to_send n k ≡ min 65536 (n - k * 65536)) × ((k * max_packet_body) % u32 ≡ k * 65536)
to_send-eq-min n k h fits below = ground (arith, parts_of_bounds n h)

module _ (p : List ℕ) where
  -- The body buffer after part `k`: the part over zeros.
  unfoldable pub body_at : ℕ → List ℕ
  body_at k = overwrite (replicate 65536 0) 0 (chunk p k)

  -- The part is at the front.
  pub take-body_at : (k : ℕ) → take (min 65536 (length p - k * 65536)) (body_at k) ≡ chunk p k
  unfolding body_at
  take-body_at k =
      take-overwrite (replicate 65536 0) 0 (chunk p k) (min 65536 (length p - k * 65536))
        (omega (arith, length-chunk p k)) (omega (arith, length-replicate {A = ℕ} 65536 0))

  pub length-body_at : (k : ℕ) → length (body_at k) ≡ 65536
  unfolding body_at
  length-body_at k =
      length-overwrite (replicate 65536 0) 0 (chunk p k) ∙ length-replicate {A = ℕ} 65536 0

  pub read-chunk :
      (k : ℕ)
      → 0 < length p
      → read (of_bytes p) (some (replicate 65536 0)) (min 65536 (length p - k * 65536)) (k * 65536)
        ≡ some (body_at k, min 65536 (length p - k * 65536))
  unfolding body_at chunk
  read-chunk k full =
      read-some p (replicate 65536 0) (min 65536 (length p - k * 65536)) (k * 65536) full ∙ rw same
    where
      same :
          min (min 65536 (length p - k * 65536)) (length p - k * 65536)
          ≡ min 65536 (length p - k * 65536)
      same = omega arith

-- The state of a sender of the bytes `p` after `k` parts, with `q` in its body buffer.
module _ (p : List ℕ) (id type : ℕ) (callback : Bool) where
  abbrev pub sender_at : ℕ → List ℕ → StreamSender
  sender_at k q = record {
    m_id = id;
    m_type = type;
    m_status = idle;
    m_callback = callback;
    m_size = length p;
    m_part = k;
    m_parts = parts_of (length p);
    m_body = of_bytes q;
    calls = [];
  }

  abbrev pub packet_at : ℕ → Packet
  packet_at k = record {
    m_head = record {
      id = 0;
      stream_id = id;
      stream_type = type;
      part = k + 1;
      parts = parts_of (length p);
      body_size = min 65536 (length p - k * 65536);
    };
    m_body = some (of_bytes (body_at p k));
  }

  module _ (full : 0 < length p) (fits : length p + 65536 ≤ u32) where
    pub asked : (k : ℕ) → k < parts_of (length p) → (min 65536 (length p - k * 65536) == 0) ≡ false
    asked k below = ground (arith, parts_of_bounds (length p) full)

    pub next : (k : ℕ) → k < parts_of (length p) → (k + 1) % u32 ≡ k + 1
    next k below = omega (arith, parts_of_bounds (length p) full)

    pub process_at :
        (k : ℕ) (q : List ℕ)
        → k < parts_of (length p)
        → length q ≡ 65536
        → process_buffer (of_bytes p) (sender_at k q) ≡ (
          true,
          some (packet_at k),
          of_bytes p,
          completes buffer_hooks (sender_at (k + 1) (body_at p k)),
        )
    unfolding process_buffer
    process_at k q below wide = rw (
      (to_send-eq-min (length p) k full fits below).0,
      (to_send-eq-min (length p) k full fits below).1,
      clear-of_bytes q,
      wide,
      read-chunk p k full,
      asked k below,
      next k below,
      length-body_at p k,
      length-replicate {A = ℕ} 65536 0,
    )
