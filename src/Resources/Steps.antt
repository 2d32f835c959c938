-- ===== src/Resources/Steps.antt =====
-- One part of a resource on each side: `ResourceSender` (src/message/resourcesender.cpp) encrypts what a
-- buffer sender of the whole ciphertext would send, and `ResourceReceiver`
-- (src/message/resourcereceiver.cpp) writes what a buffer receiver of the bytes themselves would.
use zway_lib.Base.{
  ℕ, ◌+◌, ◌-◌, ◌*◌, ◌⊎◌, ◌≡◌, ◌≤◌, ◌<◌, ◌∙◌, ap, sym, Bool, true, false, some, List, arith, min,
  length, take, replicate, overwrite, ltb, length-replicate, take-all, overwrite_all,
  overwrite-overwrite,
}
use zway_lib.Buffer.{of_bytes}
use zway_lib.Buffer.Laws.{clear-of_bytes}
use zway_lib.Crypto.Aes.{Nettle, IsCounterMode, chunk_size}
use zway_lib.Packet.{u32, type_resource}
use zway_lib.Stream.Sender.{StreamSender, parts_of, completes}
use zway_lib.Stream.Receiver
use zway_lib.Stream.Parts.{chunk, length-chunk, parts_of_bounds}
use zway_lib.Stream.Cut.{
  sender_at, packet_at, body_at, length-body_at, take-body_at, to_send-eq-min, read-chunk, asked,
  next,
}
use zway_lib.Stream.Join.{receiver_at, part_at, joined, Holds, in_order, process_packet_at}
use zway_lib.Resources.{read_resource}
use zway_lib.Resources.Sender.{ResourceState, process_resource, resource_hooks}
use zway_lib.Resources.Receiver.{ResourceReceiver, receive_resource}
use zway_lib.Resources.Cipher.{
  crypt_in_place_lem, whole, context_at, length-whole, crypt-chunk, crypt-whole, context-next,
}

within : (m : ℕ) → ltb 65536 (min 65536 m) ≡ false
within m = ground arith

module _ (N : Nettle) (law : IsCounterMode N) (malloc : ℕ → Bool)
    (memory : malloc chunk_size ≡ true) (c : N.Context) (id : ℕ) (p : List ℕ) (full : 0 < length p)
    (fits : length p + 65536 ≤ u32) (callback : Bool) where
  -- The resource encrypted in one piece.
  abbrev pub secret : List ℕ
  secret = whole N law c p full

  abbrev pub state_at : ℕ → ResourceState N
  state_at k = record {
    m_res = record { resource_id = id; m_data = some (of_bytes p) };
    m_aes = context_at N law c p full k;
  }

  abbrev pub sending_at : ℕ → List ℕ → StreamSender
  sending_at k q = sender_at p id type_resource callback k q

  same_parts : length secret ≡ length p
  same_parts = length-whole N law c p full

  encrypted-body_at :
      (k : ℕ)
      → k < parts_of (length p)
      → overwrite
          (body_at p k)
          0
          (N.ctr_crypt
            (context_at N law c p full k)
            (take (min 65536 (length p - k * 65536)) (body_at p k))).0
        ≡ body_at secret k
  unfolding body_at
  encrypted-body_at k below =
      ap (λ l. overwrite (body_at p k) 0 (N.ctr_crypt (context_at N law c p full k) l).0)
        (take-body_at p k)
      ∙ ap (overwrite (body_at p k) 0) (crypt-chunk N law c p full k below)
      ∙ overwrite-overwrite (replicate 65536 0) 0 (chunk p k) (chunk secret k) (
          length-chunk p k
          ∙ ap (λ m. min 65536 (m - k * 65536)) (sym same_parts)
          ∙ sym (length-chunk secret k))

  moved_context :
      (k : ℕ)
      → k < parts_of (length p)
      → (N.ctr_crypt
          (context_at N law c p full k)
          (take (min 65536 (length p - k * 65536)) (body_at p k))).1
        ≡ context_at N law c p full (k + 1)
  moved_context k below =
      ap (λ l. (N.ctr_crypt (context_at N law c p full k) l).1) (take-body_at p k)
      ∙ context-next N law c p full k below

  pub process_resource_at :
      (k : ℕ) (q : List ℕ)
      → k < parts_of (length p)
      → length q ≡ 65536
      → process_resource N malloc (state_at k) (sending_at k q) ≡ (
        true,
        some (packet_at secret id type_resource callback k),
        state_at (k + 1),
        completes (resource_hooks N malloc) (sending_at (k + 1) (body_at secret k)),
      )
  unfolding process_resource read_resource
  process_resource_at k q below wide = rw (
    (to_send-eq-min (length p) k full fits below).0,
    (to_send-eq-min (length p) k full fits below).1,
    clear-of_bytes q,
    wide,
    length-replicate {A = ℕ} 65536 0,
    within (length p - k * 65536),
    asked p id type_resource callback full fits k below,
    read-chunk p k full,
    asked p id type_resource callback full fits k below,
    crypt_in_place_lem N law malloc (context_at N law c p full k) (body_at p k) 65536
        (min 65536 (length p - k * 65536)) memory,
    encrypted-body_at k below,
    moved_context k below,
    next p id type_resource callback full fits k below,
    length-body_at secret k,
    same_parts,
    asked p id type_resource callback full fits k below,
    next p id type_resource callback full fits k below,
  )

  abbrev pub taking_at : ℕ → ℕ → List ℕ → ResourceReceiver N
  taking_at k part q = record {
    buffered = receiver_at p id type_resource callback k part q;
    m_aes = context_at N law c p full k;
  }

  length-secret : (k : ℕ) → length (chunk secret k) ≡ min 65536 (length p - k * 65536)
  length-secret k = length-chunk secret k ∙ ap (λ m. min 65536 (m - k * 65536)) same_parts

  decrypted-chunk :
      (k : ℕ)
      → k < parts_of (length p)
      → overwrite
          (chunk secret k)
          0
          (N.ctr_crypt
            (context_at N law c p full k)
            (take (min 65536 (length p - k * 65536)) (chunk secret k))).0
        ≡ chunk p k
  decrypted-chunk k below =
      rw
        (
          take-all (min 65536 (length p - k * 65536)) (chunk secret k)
              (omega (arith, length-secret k)),
          (crypt-whole N law c p full k below).0,
        )
        (overwrite_all (chunk secret k) (chunk p k) (length-chunk p k ∙ sym (length-secret k)))

  taken_context :
      (k : ℕ)
      → k < parts_of (length p)
      → (N.ctr_crypt
          (context_at N law c p full k)
          (take (min 65536 (length p - k * 65536)) (chunk secret k))).1
        ≡ context_at N law c p full (k + 1)
  taken_context k below =
      rw
        (take-all (min 65536 (length p - k * 65536)) (chunk secret k)
          (omega (arith, length-secret k)))
        (crypt-whole N law c p full k below).1

  pub receive_resource_at :
      (k part : ℕ) (q : List ℕ)
      → k < parts_of (length p)
      → (k ≡ 0) ⊎ (part ≡ k)
      → Holds p k q
      → receive_resource N malloc (taking_at k part q) (part_at secret id type_resource k)
        ≡ some (
          true,
          record {
            buffered =
                Receiver.completes
                  (receiver_at p id type_resource callback (k + 1) (k + 1) (joined p k q));
            m_aes = context_at N law c p full (k + 1);
          },
        )
  unfolding receive_resource
  receive_resource_at k part q below follows v = rw (
    in_order k part (omega (arith, parts_of_bounds (length p) full)) follows,
    same_parts,
    asked p id type_resource callback full fits k below,
    crypt_in_place_lem N law malloc (context_at N law c p full k) (chunk secret k)
        (length (chunk secret k)) (min 65536 (length p - k * 65536)) memory,
    decrypted-chunk k below,
    length-secret k ∙ sym (length-chunk p k),
    process_packet_at p id type_resource callback k part q full fits below v,
    taken_context k below,
  )
