-- ===== src/Resources/Arrive.antt =====
-- A whole resource on its way: `PushRequest::pushResources` (src/request/pushrequest.cpp) on one side,
-- `Client::createStreamReceiver` (src/client.cpp) on the other, joined by the loop of `Transfer`.
use zway_lib.Base.{
  ℕ, zero, suc, ◌+◌, ◌-◌, ◌⊎◌, inl, inr, ◌≡◌, ◌≤◌, ◌<◌, ap, refl, Bool, true, false, Option, none,
  some, List, ◌==◌, arith, ltb, length, replicate, length-replicate,
}
use zway_lib.Buffer.{MemoryBuffer, bytes, IsValid}
use zway_lib.Buffer.Laws.{eq_of_bytes}
use zway_lib.Crypto.Aes.{Nettle, IsCounterMode}
use zway_lib.Packet.{Packet, u32, type_resource}
use zway_lib.Stream.Sender.{StreamSender, parts_of, completes}
use zway_lib.Stream.Receiver
use zway_lib.Stream.Parts.{parts_of_bounds}
use zway_lib.Stream.Cut.{packet_at, body_at, length-body_at}
use zway_lib.Stream.Join.{joined, Holds, joined-Holds, part_at, receiver_at}
use zway_lib.Transfer.{carry, exchange, next}
use zway_lib.Transfer.Step.{carry_at, zeros, zeros-Holds}
use zway_lib.Transfer.Complete.{Completed, last_part-Completed}
use zway_lib.Resources.Sender.{ResourceState, process_resource, resource_hooks}
use zway_lib.Resources.Receiver.{ResourceReceiver, receive_resource}
use zway_lib.Resources.Link.{sender_of, accept_resource}
use zway_lib.Resources.Start.{keyed, sender_of_lem, accept_resource_first}
use zway_lib.Resources.Cipher.{context_at, length-whole}
use zway_lib.Resources.Steps.{
  secret, state_at, sending_at, taking_at, process_resource_at, receive_resource_at,
}

-- Both ends complete, with the bytes `p` at the receiver.
abbrev pub Arrives :
    (N : Nettle) → List ℕ → Bool → Option (StreamSender × Option (ResourceReceiver N)) → Type 0
Arrives N p callback result =
    (s : StreamSender) × (r : ResourceReceiver N) × (result ≡ some (s, some r))
    × Completed p callback s r.buffered

module _ (N : Nettle) (law : IsCounterMode N) (malloc : ℕ → Bool)
    (memory : (n : ℕ) → malloc n ≡ true) (fresh c : N.Context) (id : ℕ) (id_fits : id < u32)
    (p : List ℕ) (full : 0 < length p) (fits : length p + 65536 ≤ u32) (callback : Bool)
    (key salt : Option MemoryBuffer) where
  abbrev hidden : List ℕ
  hidden = secret N law malloc (memory _) c id p full fits callback

  abbrev sender_at : ℕ → List ℕ → StreamSender
  sender_at k q = sending_at N law malloc (memory _) c id p full fits callback k q

  abbrev receiver : ℕ → ℕ → List ℕ → ResourceReceiver N
  receiver k part q = taking_at N law malloc (memory _) c id p full fits callback k part q

  abbrev state : ℕ → ResourceState N
  state k = state_at N law malloc (memory _) c id p full fits callback k

  abbrev take_in : Option (ResourceReceiver N) → Packet → Option (Bool × ResourceReceiver N)
  take_in r' p' = accept_resource N malloc fresh key salt callback r' p'

  carried_at :
      (k : ℕ)
      → k < parts_of (length p)
      → carry malloc (packet_at hidden id type_resource callback k)
        ≡ some (part_at hidden id type_resource k)
  carried_at k below =
      let same = length-whole N law c p full in
      carry_at malloc hidden id type_resource memory id_fits (omega arith) (omega (arith, same))
        (omega (arith, same)) callback k (rw same below)

  exchange_step :
      (fuel k part : ℕ) (body q : List ℕ) (r : Option (ResourceReceiver N))
      → k < parts_of (length p)
      → length body ≡ 65536
      → (k ≡ 0) ⊎ (part ≡ k)
      → Holds p k q
      → take_in r (part_at hidden id type_resource k)
        ≡ receive_resource N malloc (receiver k part q) (part_at hidden id type_resource k)
      → exchange malloc
          (λ x s. process_resource N malloc x s)
          take_in
          (suc fuel)
          (state k)
          (sender_at k body)
          r
        ≡ next malloc
            (λ x s. process_resource N malloc x s)
            take_in
            (λ x' s' r'.
              exchange malloc (λ x s. process_resource N malloc x s) take_in fuel x' s' r')
            (state (k + 1))
            (completes (resource_hooks N malloc) (sender_at (k + 1) (body_at hidden k)))
            (some (record {
              buffered =
                  Receiver.completes
                    (receiver_at p id type_resource callback (k + 1) (k + 1) (joined p k q));
              m_aes = context_at N law c p full (k + 1);
            }))
  unfolding exchange
  exchange_step fuel k part body q r below wide follows v accepted = rw (
    process_resource_at N law malloc (memory _) c id p full fits callback k body below wide,
    carried_at k below,
    accepted,
    receive_resource_at N law malloc (memory _) c id p full fits callback k part q below follows v,
  )

  rest-Arrives :
      (d fuel k part : ℕ) (body q : List ℕ) (r : Option (ResourceReceiver N))
      → k + suc d ≡ parts_of (length p)
      → suc d ≤ fuel
      → length body ≡ 65536
      → (k ≡ 0) ⊎ (part ≡ k)
      → Holds p k q
      → take_in r (part_at hidden id type_resource k)
        ≡ receive_resource N malloc (receiver k part q) (part_at hidden id type_resource k)
      → Arrives N p callback (
          exchange malloc
            (λ x s. process_resource N malloc x s)
            take_in
            fuel
            (state k)
            (sender_at k body)
            r)
  unfolding completes
  rest-Arrives d zero k part body q r e enough wide follows v accepted = absurd (omega arith)
  rest-Arrives zero (suc fuel) k part body q r e enough wide follows v accepted =
      rw
        (exchange_step fuel k part body q r (omega arith) wide follows v accepted, some_parts, last)
        (
          _,
          _,
          refl,
          last_part-Completed p id type_resource callback k (body_at hidden k) q (omega arith) full
              v,
        )
    where
      some_parts : ltb 0 (parts_of (length p)) ≡ true
      some_parts = ground arith

      last : (k + 1 == parts_of (length p)) ≡ true
      last = ground arith
  rest-Arrives (suc d) (suc fuel) k part body q r e enough wide follows v accepted =
      rw
        (exchange_step fuel k part body q r (omega arith) wide follows v accepted, some_parts, more)
        (rest-Arrives d fuel (k + 1) (k + 1) (body_at hidden k) (joined p k q)
          (some (receiver (k + 1) (k + 1) (joined p k q))) (omega arith) (omega arith)
          (length-body_at hidden k) (inr refl) (joined-Holds p k q full (omega arith) v)
          (unfold accept_resource in refl))
    where
      some_parts : ltb 0 (parts_of (length p)) ≡ true
      some_parts = ground arith

      more : (k + 1 == parts_of (length p)) ≡ false
      more = ground arith

-- While memory lasts, a resource of at least one byte, and at most 2 ^ 32 - 65536 of them, whose
-- number is below 2 ^ 32, goes through whole under any key of 32 bytes and any salt of 16: with at least
-- a round for each part, the sender that pushResources makes for it encrypts, the receiver that the
-- first packet makes at the other end with the same key and salt decrypts, both complete, each calls
-- its callback once, and the receiver counts the bytes and holds them in order. Nothing is known of what
-- the cipher's contexts hold at either end when they are made.
pub resource-Arrives :
    (N : Nettle) (law : IsCounterMode N) (malloc : ℕ → Bool) (fresh other : N.Context) (id : ℕ)
    (b key salt : MemoryBuffer) (p k d : List ℕ) (callback : Bool) (fuel : ℕ)
    → ((n : ℕ) → malloc n ≡ true)
    → id < u32
    → IsValid b
    → b.m_data ≡ some p
    → 0 < b.m_size
    → b.m_size + 65536 ≤ u32
    → IsValid key
    → key.m_data ≡ some k
    → key.m_size ≡ 32
    → IsValid salt
    → salt.m_data ≡ some d
    → salt.m_size ≡ 16
    → parts_of b.m_size ≤ fuel
    → (x : ResourceState N) × (s : StreamSender) × (sender_of N malloc fresh
          (record { resource_id = id; m_data = some b })
          (some key)
          (some salt)
          callback
        ≡ some (some (x, s)))
      × Arrives N p callback (
          exchange malloc
            (λ x' s'. process_resource N malloc x' s')
            (λ r' p'. accept_resource N malloc other (some key) (some salt) callback r' p')
            fuel
            x
            s
            none)
resource-Arrives N law malloc fresh other id b key salt p k d callback fuel memory id_fits v e full
      fits y g whole u f sixteen enough =
    rw (eq_of_bytes b p v e) (
      _,
      _,
      sender_of_lem N law malloc memory fresh other id id_fits p full' fits' callback key salt d u f
          short whole',
      rest-Arrives N law malloc memory other
          (keyed N law malloc memory fresh other id id_fits p full' fits' callback key salt d u f
            short whole')
          id id_fits p full' fits' callback (some key) (some salt) (parts_of (length p) - 1) fuel 0
          1 (replicate 65536 0) zero_bytes none (omega (arith, parts_of_bounds (length p) full'))
          (omega (arith, parts_of_bounds (length p) full', ap parts_of size))
          (length-replicate {A = ℕ} 65536 0) (inl refl)
          (zeros-Holds malloc p id type_resource memory id_fits (omega arith) full' fits')
          (accept_resource_first N law malloc memory fresh other id id_fits p full' fits' callback
            key salt d u f short whole'),
    )
  where
    size : b.m_size ≡ length p
    size = ground arith

    full' : 0 < length p
    full' = omega (arith, size)

    fits' : length p + 65536 ≤ u32
    fits' = omega (arith, size)

    whole' : length (bytes key) ≡ 32
    whole' = ground arith

    short : length d ≡ 16
    short = ground arith

    zero_bytes : List ℕ
    zero_bytes = zeros malloc p id type_resource memory id_fits (omega arith) full' fits'
