-- ===== src/Stream/Parts.antt =====
-- The arithmetic of `parts_of` (src/streamsender.cpp, `init`), and the piece of a buffer that a part carries.
use zway_lib.Base.{
  ℕ, ◌+◌, ◌-◌, ◌*◌, ◌≡◌, ◌≤◌, ◌<◌, ◌++◌, List, arith, length, take, drop, min, length-take,
  length-drop, take-add,
}
use zway_lib.Stream.Sender.{parts_of}

-- The parts before the last are full, and all of them hold the stream.
pub parts_of_bounds :
    (n : ℕ) → 0 < n → ((parts_of n - 1) * 65536 < n) × (n ≤ parts_of n * 65536) × (0 < parts_of n)
unfolding parts_of
parts_of_bounds n h = ground arith

-- Part `k`, from 0: at most `max_packet_body` bytes.
unfoldable pub chunk : List ℕ → ℕ → List ℕ
chunk p k = take (min 65536 (length p - k * 65536)) (drop (k * 65536) p)

pub length-chunk : (p : List ℕ) (k : ℕ) → length (chunk p k) ≡ min 65536 (length p - k * 65536)
unfolding chunk
length-chunk p k = omega (
  arith,
  length-take (min 65536 (length p - k * 65536)) (drop (k * 65536) p),
  length-drop (k * 65536) p,
)

-- The parts up to `k` and part `k` are the parts up to `k + 1`.
pub take-chunk :
    (p : List ℕ) (k m : ℕ)
    → m ≡ k * 65536 + min 65536 (length p - k * 65536)
    → take m p ≡ take (k * 65536) p ++ chunk p k
unfolding chunk
take-chunk p k m e = take-add (k * 65536) (min 65536 (length p - k * 65536)) m p e
