-- ===== src/Transfer/Tests.antt =====
-- A transfer of three bytes.
use zway_lib.Base.{ℕ, ◌≡◌, refl, Bool, true, some, none, List, [], ◌∷◌, arith}
use zway_lib.Buffer.{of_bytes}
use zway_lib.Stream.Sender.{StreamSender, parts_of, buffer_sender}
use zway_lib.Transfer.{transfer}
use zway_lib.Transfer.Complete.{Delivers, transfer-Delivers}

abbrev letters : List ℕ
letters = 97 ∷ 98 ∷ 99 ∷ []

abbrev plenty : ℕ → Bool
plenty n = true

one_part : parts_of 3 ≡ 1
unfolding parts_of
one_part = refl

two_parts : parts_of 65537 ≡ 2
unfolding parts_of
two_parts = refl

transfer-Delivers_example :
    (s : StreamSender) × (buffer_sender plenty 5 1 (some (of_bytes letters)) true
      ≡ some (of_bytes letters, s))
    × Delivers letters true (transfer plenty 1 true (of_bytes letters) s none)
transfer-Delivers_example =
    transfer-Delivers plenty (of_bytes letters) letters 5 1 1 true (λ n. refl) refl refl
      (omega arith) (omega arith) (omega arith) (omega arith) (omega (arith, one_part))
