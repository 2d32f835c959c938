-- ===== src/Client/Bytes.antt =====
-- What `Client::send` and `Client::recv` do with the bytes in whatever turns (src/client.cpp).
use zway_lib.Base.{
  ℕ, ◌-◌, ◌≡◌, ◌≤◌, ◌⊎◌, inl, inr, refl, ap, ◌∙◌, Bool, true, false, List, [], ◌∷◌, ◌++◌, length,
  take, drop, ltb, if◌then◌else◌, arith, length-append, length-take, append_assoc, append-nil,
  take-append-drop, Bool-cases,
}
use mathlib.Core.Path.{subst}
use zway_lib.Client.{
  Ready, failed, no, yes, Record, fatal, again, moves, Turn, Outcome, returned, waiting, Verdict,
  ends, goes_on, turn, send, send_loop, recv, recv_loop, minus_one, if_ready,
}

-- The value is the number of bytes that moved, or -1; at most `size` moved, in order, and none is lost.
abbrev pub Received : ℕ → List ℕ → Outcome → Type 0
Received size all waiting = Unit {0}
Received size all (returned r p) =
    ((r ≡ length p.moved) ⊎ (r ≡ minus_one)) × (length p.moved ≤ size) × (p.moved ++ p.link ≡ all)

abbrev pub SentOf : ℕ → List ℕ → List ℕ → Outcome → Type 0
SentOf size p link waiting = Unit {0}
SentOf size p link (returned r q) =
    ((r ≡ length q.moved) ⊎ (r ≡ minus_one))
    × (length q.moved ≤ size)
    × ((rest : List ℕ) × (q.moved ++ rest ≡ p))
    × (q.link ≡ link ++ q.moved)

abbrev EndsWith : ℕ → ℕ → Verdict → Type 0
EndsWith s room (ends r) = (r ≡ s) ⊎ (r ≡ minus_one)
EndsWith s room (goes_on k) = k ≤ room

verdict_ends : (r : Ready) (g : Record) (s room : ℕ) → EndsWith s room (if_ready r g room)
verdict_ends failed g s room = inr refl
verdict_ends no g s room = omega arith
verdict_ends yes fatal s room = inr refl
verdict_ends yes again s room = omega arith
verdict_ends yes (moves k) s room = omega arith

cancel_ends :
    (c : Bool) (r : Ready) (g : Record) (s room : ℕ)
    → EndsWith s room (if c then ends s else if_ready r g room)
cancel_ends true r g s room = inl refl
cancel_ends false r g s room = verdict_ends r g s room

turn_ends : (t : Turn) (s room : ℕ) → EndsWith s room (turn t s room)
unfolding turn
turn_ends t s room = cancel_ends t.canceled t.ready t.gnutls s room

regrouped : (k : ℕ) (got link : List ℕ) → (got ++ take k link) ++ drop k link ≡ got ++ link
regrouped k got link =
    append_assoc got (take k link) (drop k link) ∙ ap (λ l. got ++ l) (take-append-drop k link)

recv_loop-Received :
    (ts : List Turn) (size : ℕ) (got link : List ℕ)
    → length got ≤ size
    → Received size (got ++ link) (recv_loop ts size got link)
unfolding recv_loop
recv_loop-Received [] size got link h = elim (Bool-cases (ltb (length got) size)) [
  | inl e ↦ rw e tt
  | inr e ↦ rw e (inl refl, h, refl)
]
recv_loop-Received (t ∷ ts) size got link h = by_test _ _ refl refl λ k h'.
    subst (λ all. Received size all (recv_loop ts size (got ++ take k link) (drop k link)))
      (regrouped k got link) (recv_loop-Received ts size (got ++ take k link) (drop k link) h')
  where
    by_test :
        (c : Bool) (v : Verdict)
        → ltb (length got) size ≡ c
        → turn t (length got) (size - length got) ≡ v
        → ((k : ℕ)
            → length (got ++ take k link) ≤ size
            → Received size (got ++ link) (recv_loop ts size (got ++ take k link) (drop k link)))
        → Received size (got ++ link) (recv_loop (t ∷ ts) size got link)
    by_test false v e f ih = rw e (inl refl, h, refl)
    by_test true (ends r) e f ih =
        let end : EndsWith (length got) (size - length got) (ends r) =
          subst (EndsWith (length got) (size - length got)) f
            (turn_ends t (length got) (size - length got)) in
        rw (e, f) (end, h, refl)
    by_test true (goes_on k) e f ih =
        let small : EndsWith (length got) (size - length got) (goes_on k) =
          subst (EndsWith (length got) (size - length got)) f
            (turn_ends t (length got) (size - length got)) in
        rw (e, f)
          (ih k (omega (arith, length-append got (take k link), length-take k link, h, small)))

send_loop-SentOf :
    (ts : List Turn) (rest : List ℕ) (size : ℕ) (sent link : List ℕ)
    → length sent ≤ size
    → SentOf size (sent ++ rest) link (send_loop ts rest size sent (link ++ sent))
unfolding send_loop
send_loop-SentOf [] rest size sent link h = elim (Bool-cases (ltb (length sent) size)) [
  | inl e ↦ rw e tt
  | inr e ↦ rw e (inl refl, h, (rest, refl), refl)
]
send_loop-SentOf (t ∷ ts) rest size sent link h = by_test _ _ refl refl λ k h'.
    subst
      (λ all.
        SentOf size all link
          (send_loop ts (drop k rest) size (sent ++ take k rest) ((link ++ sent) ++ take k rest)))
      (regrouped k sent rest)
      (rw (append_assoc link sent (take k rest))
        (send_loop-SentOf ts (drop k rest) size (sent ++ take k rest) link h'))
  where
    by_test :
        (c : Bool) (v : Verdict)
        → ltb (length sent) size ≡ c
        → turn t (length sent) (size - length sent) ≡ v
        → ((k : ℕ)
            → length (sent ++ take k rest) ≤ size
            → SentOf size (sent ++ rest) link (
                send_loop ts
                  (drop k rest)
                  size
                  (sent ++ take k rest)
                  ((link ++ sent) ++ take k rest)))
        → SentOf size (sent ++ rest) link (send_loop (t ∷ ts) rest size sent (link ++ sent))
    by_test false v e f ih = rw e (inl refl, h, (rest, refl), refl)
    by_test true (ends r) e f ih =
        let end : EndsWith (length sent) (size - length sent) (ends r) =
          subst (EndsWith (length sent) (size - length sent)) f
            (turn_ends t (length sent) (size - length sent)) in
        rw (e, f) (end, h, (rest, refl), refl)
    by_test true (goes_on k) e f ih =
        let small : EndsWith (length sent) (size - length sent) (goes_on k) =
          subst (EndsWith (length sent) (size - length sent)) f
            (turn_ends t (length sent) (size - length sent)) in
        rw (e, f)
          (ih k (omega (arith, length-append sent (take k rest), length-take k rest, h, small)))

-- Whatever the turns: a call that returns gives the number of bytes that moved, or -1; at most `size`
-- moved. What `send` moved is the beginning of its data, and stands behind what was on the link; what
-- `recv` moved and what is left on the link is what was there, in order.
pub send-recv-bytes :
    (ts : List Turn) (p link : List ℕ) (size : ℕ)
    → SentOf size p link (send ts p size link) × Received size link (recv ts size link)
unfolding send recv
send-recv-bytes ts p link size = (
  subst (λ l. SentOf size p link (send_loop ts p size [] l)) (append-nil link)
      (send_loop-SentOf ts p size [] link (omega arith)),
  recv_loop-Received ts size [] link (omega arith),
)
