-- ===== src/Client/Loops.antt =====
-- What `Client::send` and `Client::recv` do with the bytes, and when they return (src/client.cpp).
use zway_lib.Base.{
  ℕ, zero, suc, ◌+◌, ◌-◌, ◌≡◌, ◌≤◌, ◌<◌, refl, sym, ap, ◌∙◌, false, List, [], ◌∷◌, ◌++◌, length,
  take, drop, min, arith, length-append, length-take, length-drop, take-add, drop-drop,
  append_assoc, append-nil, lt→ltb, ltb_irrefl,
}
use zway_lib.Client.{
  Ready, failed, no, yes, Record, fatal, again, moves, Turn, returned, waiting, goes_on, turn, send,
  send_loop, recv, recv_loop, if_ready,
}

-- Turns without a cancel and without an error that ends the loop.
abbrev IsSteadyAt : Ready → Record → Type 0
IsSteadyAt failed r = ⊥
IsSteadyAt no r = Unit {0}
IsSteadyAt yes fatal = ⊥
IsSteadyAt yes again = Unit {0}
IsSteadyAt yes (moves k) = Unit {0}

abbrev pub IsSteady : List Turn → Type 0
IsSteady [] = Unit {0}
IsSteady (t ∷ ts) = (t.canceled ≡ false) × IsSteadyAt t.ready t.gnutls × IsSteady ts

-- The turns in which something can move.
abbrev weight : Ready → Record → ℕ
weight yes (moves (suc k)) = 1
weight yes (moves zero) = 0
weight r g = 0

abbrev pub productive : List Turn → ℕ
productive [] = 0
productive (t ∷ ts) = weight t.ready t.gnutls + productive ts

-- A steady turn goes on, and moves something if it can.
abbrev Moves : Turn → ℕ → ℕ → ℕ → Type 0
Moves t s room k =
    (turn t s room ≡ goes_on k) × (k ≤ room) × (0 < room → weight t.ready t.gnutls ≤ k)

verdict_moves :
    (r : Ready) (g : Record) (room : ℕ)
    → IsSteadyAt r g
    → (k : ℕ) × (if_ready r g room ≡ goes_on k) × (k ≤ room) × (0 < room → weight r g ≤ k)
verdict_moves failed g room h = absurd h
verdict_moves no g room h = (0, refl, omega arith, λ p. omega arith)
verdict_moves yes fatal room h = absurd h
verdict_moves yes again room h = (0, refl, omega arith, λ p. omega arith)
verdict_moves yes (moves zero) room h = (min 0 room, refl, omega arith, λ p. omega arith)
verdict_moves yes (moves (suc k)) room h = (min (suc k) room, refl, omega arith, λ p. omega arith)

turn-Moves :
    (t : Turn) (s room : ℕ)
    → t.canceled ≡ false
    → IsSteadyAt t.ready t.gnutls
    → (k : ℕ) × Moves t s room k
unfolding turn
turn-Moves t s room c h =
    let v = verdict_moves t.ready t.gnutls room h in (v.0, (rw c v.1, v.2, v.3))

-- The turns that are left when `m` bytes have moved: all but `m` of the productive ones, at least.
abbrev pub LeavesTurns : List Turn → List Turn → ℕ → Type 0
LeavesTurns ts us m = IsSteady us × (productive ts ≤ productive us + m)

-- Two moves one after the other are one.
joined :
    (got link : List ℕ) (k m n : ℕ)
    → n ≡ k + m
    → (got ++ take k link) ++ take m (drop k link) ≡ got ++ take n link
joined got link k m n e =
    append_assoc got (take k link) (take m (drop k link))
    ∙ ap (λ l. got ++ l) (sym (take-add k m n link e))

dropped : (link : List ℕ) (k m n : ℕ) → n ≡ k + m → drop m (drop k link) ≡ drop n link
dropped link k m n e = drop-drop m k link ∙ ap (λ j. drop j link) (sym e)

recv_loop-done :
    (ts : List Turn) (size : ℕ) (got link : List ℕ)
    → length got ≡ size
    → recv_loop ts size got link ≡ returned size (record { moved = got; link = link; turns = ts })
unfolding recv_loop
recv_loop-done [] size got link e = rw (e, ltb_irrefl size)
recv_loop-done (t ∷ ts) size got link e = rw (e, ltb_irrefl size)

recv_loop-next :
    (t : Turn) (ts : List Turn) (size k : ℕ) (got link : List ℕ)
    → length got < size
    → turn t (length got) (size - length got) ≡ goes_on k
    → recv_loop (t ∷ ts) size got link ≡ recv_loop ts size (got ++ take k link) (drop k link)
unfolding recv_loop
recv_loop-next t ts size k got link h e = rw (lt→ltb (length got) size h, e)

-- The rest of the peer's bytes comes in.
recv_loop_lem :
    (ts : List Turn) (size m : ℕ) (got link : List ℕ)
    → IsSteady ts
    → length got + m ≡ size
    → m ≤ length link
    → m ≤ productive ts
    → (us : List Turn) × (recv_loop ts size got link
        ≡ returned size (record { moved = got ++ take m link; link = drop m link; turns = us }))
      × LeavesTurns ts us m
recv_loop_lem ts size zero got link h e a b =
    (ts, rw (append-nil got) (recv_loop-done ts size got link (omega arith)), (h, omega arith))
recv_loop_lem [] size (suc m) got link h e a b = absurd (omega arith)
recv_loop_lem (t ∷ ts) size (suc m) got link h e a b =
    let (k, moves_k) = turn-Moves t (length got) (size - length got) h.0 h.1 in
    let rest =
      recv_loop_lem ts size (suc m - k) (got ++ take k link) (drop k link) h.2
        (omega (arith, length-append got (take k link), length-take k link, moves_k.1))
        (omega (arith, length-drop k link)) (omega (arith, moves_k.2 (omega arith))) in
    (
      rest.0,
      recv_loop-next t ts size k got link (omega arith) moves_k.0 ∙ rest.1 ∙ λ i.
          returned size (record {
            moved = joined got link k (suc m - k) (suc m) (omega (arith, moves_k.1)) i;
            link = dropped link k (suc m - k) (suc m) (omega (arith, moves_k.1)) i;
            turns = rest.0;
          }),
      (rest.2.0, omega (arith, rest.2.1, moves_k.1, moves_k.2 (omega arith))),
    )

pub recv_lem :
    (ts : List Turn) (n : ℕ) (link : List ℕ)
    → IsSteady ts
    → n ≤ length link
    → n ≤ productive ts
    → (us : List Turn) × (recv ts n link
        ≡ returned n (record { moved = take n link; link = drop n link; turns = us }))
      × LeavesTurns ts us n
unfolding recv
recv_lem ts n link h b d = recv_loop_lem ts n n [] link h (omega arith) b d

send_loop-done :
    (ts : List Turn) (rest : List ℕ) (size : ℕ) (sent link : List ℕ)
    → length sent ≡ size
    → send_loop ts rest size sent link
      ≡ returned size (record { moved = sent; link = link; turns = ts })
unfolding send_loop
send_loop-done [] rest size sent link e = rw (e, ltb_irrefl size)
send_loop-done (t ∷ ts) rest size sent link e = rw (e, ltb_irrefl size)

send_loop-next :
    (t : Turn) (ts : List Turn) (rest : List ℕ) (size k : ℕ) (sent link : List ℕ)
    → length sent < size
    → turn t (length sent) (size - length sent) ≡ goes_on k
    → send_loop (t ∷ ts) rest size sent link
      ≡ send_loop ts (drop k rest) size (sent ++ take k rest) (link ++ take k rest)
unfolding send_loop
send_loop-next t ts rest size k sent link h e = rw (lt→ltb (length sent) size h, e)

-- The rest of the data goes out.
send_loop_lem :
    (ts : List Turn) (rest : List ℕ) (size m : ℕ) (sent link : List ℕ)
    → IsSteady ts
    → length sent + m ≡ size
    → m ≤ length rest
    → m ≤ productive ts
    → (us : List Turn) × (send_loop ts rest size sent link
        ≡ returned size
            (record { moved = sent ++ take m rest; link = link ++ take m rest; turns = us }))
      × LeavesTurns ts us m
send_loop_lem ts rest size zero sent link h e a b = (
  ts,
  rw (append-nil sent, append-nil link) (send_loop-done ts rest size sent link (omega arith)),
  (h, omega arith),
)
send_loop_lem [] rest size (suc m) sent link h e a b = absurd (omega arith)
send_loop_lem (t ∷ ts) rest size (suc m) sent link h e a b =
    let (k, moves_k) = turn-Moves t (length sent) (size - length sent) h.0 h.1 in
    let more =
      send_loop_lem ts (drop k rest) size (suc m - k) (sent ++ take k rest) (link ++ take k rest)
        h.2 (omega (arith, length-append sent (take k rest), length-take k rest, moves_k.1))
        (omega (arith, length-drop k rest)) (omega (arith, moves_k.2 (omega arith))) in
    (
      more.0,
      send_loop-next t ts rest size k sent link (omega arith) moves_k.0 ∙ more.1 ∙ λ i.
          returned size (record {
            moved = joined sent rest k (suc m - k) (suc m) (omega (arith, moves_k.1)) i;
            link = joined link rest k (suc m - k) (suc m) (omega (arith, moves_k.1)) i;
            turns = more.0;
          }),
      (more.2.0, omega (arith, more.2.1, moves_k.1, moves_k.2 (omega arith))),
    )

-- In turns without a cancel and without a fatal error, of which as many as there are bytes can move
-- something, `send` returns the size, with all bytes behind those on the link, and `recv` of bytes
-- that are there returns the size, with the first bytes of the link, which it takes off. Each byte uses
-- up one of those turns at most.
pub send-recv-IsSteady :
    (ts : List Turn) (p link : List ℕ) (size n : ℕ)
    → IsSteady ts
    → size ≤ length p
    → n ≤ length link
    → size ≤ productive ts
    → n ≤ productive ts
    → ((us : List Turn) × (send ts p size link
          ≡ returned size (record { moved = take size p; link = link ++ take size p; turns = us }))
        × LeavesTurns ts us size)
      × ((us : List Turn) × (recv ts n link
            ≡ returned n (record { moved = take n link; link = drop n link; turns = us }))
          × LeavesTurns ts us n)
unfolding send
send-recv-IsSteady ts p link size n h a b c d =
    (send_loop_lem ts p size size [] link h (omega arith) a c, recv_lem ts n link h b d)

recv_loop-waits :
    (ts : List Turn) (size : ℕ) (got link : List ℕ)
    → IsSteady ts
    → length got + length link < size
    → recv_loop ts size got link ≡ waiting
unfolding recv_loop
recv_loop-waits [] size got link h e = rw (lt→ltb (length got) size (omega arith))
recv_loop-waits (t ∷ ts) size got link h e =
    let (k, moves_k) = turn-Moves t (length got) (size - length got) h.0 h.1 in
    recv_loop-next t ts size k got link (omega arith) moves_k.0
    ∙ recv_loop-waits ts size (got ++ take k link) (drop k link) h.2
        (omega (arith, length-append got (take k link), length-take k link, length-drop k link))

-- If the peer closes before `size` bytes have come, `recv` does not return, however many turns
-- without a cancel and without a fatal error there are.
pub recv-waits :
    (ts : List Turn) (size : ℕ) (link : List ℕ)
    → IsSteady ts
    → length link < size
    → recv ts size link ≡ waiting
unfolding recv
recv-waits ts size link h e = recv_loop-waits ts size [] link h (omega arith)
