-- ===== src/Transfer/Complete.antt =====
-- A whole transfer.
use zway_lib.Base.{
  ℕ, zero, suc, ◌+◌, ◌-◌, ◌*◌, ◌≡◌, ◌≤◌, ◌<◌, ◌∙◌, ap, refl, Bool, true, false, some, none, List,
  [], ◌∷◌, arith, length, take, min, replicate, ◌==◌, ltb, length-replicate, ◌⊎◌, inl, inr, Option,
  if◌then◌else◌, take-all,
}
use zway_lib.Buffer.{MemoryBuffer, of_bytes, IsValid, bytes}
use zway_lib.Buffer.Laws.{eq_of_bytes, create_null}
use zway_lib.Packet.{u32}
use zway_lib.Stream.Sender.{StreamSender, parts_of, buffer_hooks, buffer_sender, init}
use zway_lib.Stream.Sender
use zway_lib.Stream.Receiver.{BufferReceiver}
use zway_lib.Stream.Receiver
use zway_lib.Stream.Parts.{parts_of_bounds}
use zway_lib.Stream.Cut.{sender_at, body_at, length-body_at}
use zway_lib.Stream.Join.{receiver_at, joined, Holds, joined-Holds, part_at}
use zway_lib.Transfer.{transfer, accept}
use zway_lib.Transfer.Step.{transfer_step, accept_first, zeros, zeros-Holds}

-- What a completed transfer leaves: both ends are completed and have called their callback once, and
-- the receiver's buffer starts with the bytes `p`, which it counts.
pub record Completed (p : List ℕ) (callback : Bool) (s : StreamSender) (r : BufferReceiver)
    : Type 0 where
  pub sender_done : s.m_status ≡ Sender.completed
  pub sender_calls : s.calls ≡ (if callback then Sender.completed ∷ [] else [])
  pub receiver_done : r.m_status ≡ Receiver.completed
  pub receiver_calls : r.calls ≡ (if callback then (Receiver.completed, length p) ∷ [] else [])
  pub counted : r.m_bytes_received ≡ length p
  pub arrived : take (length p) (bytes r.m_buffer) ≡ p

abbrev pub Delivers : List ℕ → Bool → Option (StreamSender × Option BufferReceiver) → Type 0
Delivers p callback result =
    (s : StreamSender) × (r : BufferReceiver) × (result ≡ some (s, some r))
    × Completed p callback s r

-- After the last part.
pub last_part-Completed :
    (p : List ℕ) (id type : ℕ) (callback : Bool) (k : ℕ) (body q : List ℕ)
    → k + 1 ≡ parts_of (length p)
    → 0 < length p
    → Holds p k q
    → Completed p callback
        (record (sender_at p id type callback (k + 1) body) {
          m_status = Sender.completed;
          calls = if callback then Sender.completed ∷ [] else [];
        })
        (record (receiver_at p id type callback (k + 1) (k + 1) (joined p k q)) {
          m_status = Receiver.completed;
          calls =
              if callback then (Receiver.completed, min (length p) ((k + 1) * 65536)) ∷ [] else [];
        })
last_part-Completed p id type callback k body q e full v = record {
  sender_done = refl;
  sender_calls = refl;
  receiver_done = refl;
  receiver_calls = rw all;
  counted = all;
  arrived =
      rw all at (joined-Holds p k q full (omega arith) v).front
      ∙ take-all (length p) p (omega arith);
}
  where
    all : min (length p) ((k + 1) * 65536) ≡ length p
    all = omega (arith, parts_of_bounds (length p) full)

module _ (malloc : ℕ → Bool) (p : List ℕ) (id type : ℕ) (memory : (n : ℕ) → malloc n ≡ true)
    (id_fits : id < u32) (type_fits : type < u32) (full : 0 < length p)
    (fits : length p + 65536 ≤ u32) (callback : Bool) where
  rest-Delivers :
      (d fuel k part : ℕ) (body q : List ℕ) (r : Option BufferReceiver)
      → k + suc d ≡ parts_of (length p)
      → suc d ≤ fuel
      → length body ≡ 65536
      → (k ≡ 0) ⊎ (part ≡ k)
      → Holds p k q
      → accept malloc callback r (part_at p id type k)
        ≡ Receiver.process (receiver_at p id type callback k part q) (part_at p id type k)
      → Delivers p callback
          (transfer malloc fuel callback (of_bytes p) (sender_at p id type callback k body) r)
  unfolding Sender.completes
  rest-Delivers d zero k part body q r e enough wide follows v accepted = absurd (omega arith)
  rest-Delivers zero (suc fuel) k part body q r e enough wide follows v accepted =
      rw
        (
          transfer_step malloc p id type memory id_fits type_fits full fits callback fuel k part
              body q r (omega arith) wide follows v accepted,
          some_parts,
          last,
        )
        (_, _, refl, last_part-Completed p id type callback k (body_at p k) q (omega arith) full v)
    where
      some_parts : ltb 0 (parts_of (length p)) ≡ true
      some_parts = ground arith

      last : (k + 1 == parts_of (length p)) ≡ true
      last = ground arith
  rest-Delivers (suc d) (suc fuel) k part body q r e enough wide follows v accepted =
      rw
        (
          transfer_step malloc p id type memory id_fits type_fits full fits callback fuel k part
              body q r (omega arith) wide follows v accepted,
          some_parts,
          more,
        )
        (rest-Delivers d fuel (k + 1) (k + 1) (body_at p k) (joined p k q)
          (some (receiver_at p id type callback (k + 1) (k + 1) (joined p k q))) (omega arith)
          (omega arith) (length-body_at p k) (inr refl) (joined-Holds p k q full (omega arith) v)
          accepts)
    where
      some_parts : ltb 0 (parts_of (length p)) ≡ true
      some_parts = ground arith

      more : (k + 1 == parts_of (length p)) ≡ false
      more = ground arith

      accepts :
          accept malloc callback
            (some (receiver_at p id type callback (k + 1) (k + 1) (joined p k q)))
            (part_at p id type (k + 1))
          ≡ Receiver.process
              (receiver_at p id type callback (k + 1) (k + 1) (joined p k q))
              (part_at p id type (k + 1))
      accepts = unfold accept in refl

made :
    (malloc : ℕ → Bool) (p : List ℕ) (id type : ℕ) (callback : Bool)
    → ((n : ℕ) → malloc n ≡ true)
    → 0 < length p
    → buffer_sender malloc id type (some (of_bytes p)) callback
      ≡ some (of_bytes p, sender_at p id type callback 0 (replicate 65536 0))
unfolding buffer_sender
made malloc p id type callback memory full =
    rw (create_null malloc 65536 (memory 65536), some_bytes)
  where
    some_bytes : (length p == 0) ≡ false
    some_bytes = ground arith

-- While memory lasts, every valid buffer of at least one byte, and at most 2 ^ 32 - 65536 of
-- them, goes through whole: with at least a round for each part, a sender made for it and the
-- receiver that its first packet makes both complete, each calls its callback once, and the
-- receiver counts the bytes and holds them in order. The sender's number and type are below 2 ^
-- 32.
pub transfer-Delivers :
    (malloc : ℕ → Bool) (b : MemoryBuffer) (p : List ℕ) (id type fuel : ℕ) (callback : Bool)
    → ((n : ℕ) → malloc n ≡ true)
    → IsValid b
    → b.m_data ≡ some p
    → 0 < b.m_size
    → b.m_size + 65536 ≤ u32
    → id < u32
    → type < u32
    → parts_of b.m_size ≤ fuel
    → (s : StreamSender) × (buffer_sender malloc id type (some b) callback ≡ some (b, s))
      × Delivers p callback (transfer malloc fuel callback b s none)
transfer-Delivers malloc b p id type fuel callback memory v e full fits id_fits type_fits enough =
    rw (eq_of_bytes b p v e) (
      sender_at p id type callback 0 (replicate 65536 0),
      made malloc p id type callback memory (ground arith),
      through,
    )
  where
    size : b.m_size ≡ length p
    size = ground arith

    first : parts_of (length p) ≡ suc (parts_of (length p) - 1)
    first = omega (arith, parts_of_bounds (length p) (omega (arith, size)))

    through : Delivers p callback (
        transfer malloc fuel callback
          (of_bytes p)
          (sender_at p id type callback 0 (replicate 65536 0))
          none)
    through =
        rest-Delivers malloc p id type memory id_fits type_fits (omega (arith, size))
          (omega (arith, size)) callback (parts_of (length p) - 1) fuel 0 1 (replicate 65536 0)
          (zeros malloc p id type memory id_fits type_fits (omega (arith, size))
            (omega (arith, size)))
          none (omega (arith, first)) (omega (arith, first, ap parts_of size))
          (length-replicate {A = ℕ} 65536 0) (inl refl)
          (zeros-Holds malloc p id type memory id_fits type_fits (omega (arith, size))
            (omega (arith, size)))
          (accept_first malloc p id type memory id_fits type_fits (omega (arith, size))
            (omega (arith, size)) callback)
