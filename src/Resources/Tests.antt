-- ===== src/Resources/Tests.antt =====
-- A resource of three bytes on its way, under a toy cipher.
use zway_lib.Base.{ℕ, ◌≡◌, refl, Bool, true, some, none, List, [], ◌∷◌, arith, replicate}
use zway_lib.Buffer.{MemoryBuffer, of_bytes}
use zway_lib.Crypto.Aes.Toy.{toy_nettle, toy_nettle-IsCounterMode}
use zway_lib.Stream.Sender.{StreamSender, parts_of}
use zway_lib.Transfer.{exchange}
use zway_lib.Resources.Sender.{ResourceState, process_resource}
use zway_lib.Resources.Link.{sender_of, accept_resource}
use zway_lib.Resources.Arrive.{Arrives, resource-Arrives}

abbrev letters : List ℕ
letters = 97 ∷ 98 ∷ 99 ∷ []

abbrev plenty : ℕ → Bool
plenty n = true

abbrev a_key : MemoryBuffer
a_key = of_bytes (replicate 32 5)

abbrev a_salt : MemoryBuffer
a_salt = of_bytes (replicate 16 3)

resource-Arrives_example :
    (x : ResourceState toy_nettle) × (s : StreamSender) × (sender_of toy_nettle plenty
        (0, 0)
        (record { resource_id = 7; m_data = some (of_bytes letters) })
        (some a_key)
        (some a_salt)
        true
      ≡ some (some (x, s)))
    × Arrives toy_nettle letters true (
        exchange plenty
          (λ x' s'. process_resource toy_nettle plenty x' s')
          (λ r' p'. accept_resource toy_nettle plenty (3, 8) (some a_key) (some a_salt) true r' p')
          1
          x
          s
          none)
unfolding replicate
resource-Arrives_example =
    resource-Arrives toy_nettle toy_nettle-IsCounterMode plenty (0, 0) (3, 8) 7 (of_bytes letters)
      a_key a_salt letters (replicate 32 5) (replicate 16 3) true 1 (λ n. refl) (omega arith) refl
      refl (omega arith) (omega arith) refl refl refl refl refl refl
      (unfold parts_of in omega arith)
