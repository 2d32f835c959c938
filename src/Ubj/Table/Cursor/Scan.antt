-- ===== src/Ubj/Table/Cursor/Scan.antt =====
-- SQLite's walk over a cursor: `xFilter`, then `xRowid`, `xColumn` and `xNext` until `xEof`.
use zway_lib.Base.{
  ℕ, zero, suc, ◌+◌, ◌≡◌, ◌≤◌, ◌<◌, refl, ap, ◌∙◌, Bool, true, false, not, sym, le→not-ltb, ltb→lt,
  Option, none, some, List, [], ◌∷◌, ltb, if◌then◌else◌, length, drop, arith,
}
use zway_lib.Base.Int.{ℤ}
use zway_lib.Ubj.Value.{Runtime, Object, Array, nil, cons}
use zway_lib.Ubj.Value.Convert.{to_uint}
use zway_lib.Ubj.Object.{length_array}
use zway_lib.Ubj.Format.{Library}
use zway_lib.Ubj.Table.{Blobs, row_of}
use zway_lib.Ubj.Table.Cursor.{
  Table, Cursor, Op, Argument, constrained, or_ids, load, kept, x_filter, x_eof, x_next, x_rowid,
  current_row, nth,
}

abbrev visited : Option ℕ → Option Object → Option (List (ℕ × Object)) → Option (List (ℕ × Object))
visited (some i) (some o) (some l) = some ((i, o) ∷ l)
visited _ _ _ = none

-- The rows that are visited in so many steps: `none`, if the end is not reached or a row is missing.
unfoldable pub scan : ℕ → Cursor → Option (List (ℕ × Object))
unfolding x_eof x_next x_rowid current_row
scan zero c = if x_eof c then some [] else none
scan (suc n) c =
    let rest = scan n (x_next c) in
    if x_eof c then some [] else visited (x_rowid c) (current_row c) rest

abbrev firsts : List (ℕ × Object) → List ℕ
firsts [] = []
firsts ((i, o) ∷ l) = i ∷ firsts l

abbrev seconds : List (ℕ × Object) → List Object
seconds [] = []
seconds ((i, o) ∷ l) = o ∷ seconds l

abbrev cursor_of : ℕ → List (ℕ × Object) → Cursor
cursor_of p l = record { row_ids = firsts l; rows = seconds l; pos = p }

length-seconds : (l : List (ℕ × Object)) → length (seconds l) ≡ length l
length-seconds [] = refl
length-seconds ((i, o) ∷ l) = ap suc (length-seconds l)

-- What stands at a position.
nth-firsts :
    (p : ℕ) (l : List (ℕ × Object))
    → p < length l
    → (i : ℕ) × (o : Object) × (drop p l ≡ (i, o) ∷ drop (suc p) l)
      × (nth p (firsts l) ≡ some i)
      × (nth p (seconds l) ≡ some o)
nth-firsts p [] h = absurd (omega arith)
nth-firsts zero ((i, o) ∷ l) h = (i, o, refl, refl, refl)
nth-firsts (suc p) ((i, o) ∷ l) h = nth-firsts p l (omega arith)

drop_end : (p : ℕ) (l : List (ℕ × Object)) → length l ≤ p → drop p l ≡ []
drop_end zero [] h = refl
drop_end zero (x ∷ l) h = absurd (omega arith)
drop_end (suc p) [] h = refl
drop_end (suc p) (x ∷ l) h = drop_end p l (omega arith)

eof_lem : (p : ℕ) (l : List (ℕ × Object)) → x_eof (cursor_of p l) ≡ not (ltb p (length l))
unfolding x_eof
eof_lem p l = ap (λ n. not (ltb p n)) (length-seconds l)

next_lem : (p : ℕ) (l : List (ℕ × Object)) → x_next (cursor_of p l) ≡ cursor_of (suc p) l
unfolding x_next
next_lem p l = ap (λ n. cursor_of n l) (omega arith)

-- One step of a walk, before or at the end.
by_end :
    (n p : ℕ) (l : List (ℕ × Object)) (b : Bool)
    → ltb p (length l) ≡ b
    → p ≤ length l
    → (ltb p (length l) ≡ true → scan n (cursor_of (suc p) l) ≡ some (drop (suc p) l))
    → scan (suc n) (cursor_of p l) ≡ some (drop p l)
unfolding scan
by_end n p l false e k rest = rw (eof_lem p l, e) (ap some (sym (drop_end p l (ground (arith, e)))))
by_end n p l true e k rest =
    let (i, o, d, f, g) = nth-firsts p l (ltb→lt p (length l) e) in
    rw (eof_lem p l, e, next_lem p l, rest e, d) (unfold x_rowid current_row in rw (f, g) refl)

scan-drop :
    (n p : ℕ) (l : List (ℕ × Object))
    → length l ≤ n + p
    → p ≤ length l
    → scan n (cursor_of p l) ≡ some (drop p l)
unfolding scan
scan-drop zero p l h k =
    rw (eof_lem p l, le→not-ltb p (length l) (omega arith))
      (ap some (sym (drop_end p l (omega arith))))
scan-drop (suc n) p l h k =
    by_end n p l (ltb p (length l)) refl k
      (λ e. scan-drop n (suc p) l (omega arith) (ltb→lt p (length l) e))

module _ (rt : Runtime) (lib : Library) (store : Blobs) where
  abbrev pub with_row : ℕ → Option Object → List (ℕ × Object) → List (ℕ × Object)
  with_row id none l = l
  with_row id (some o) l = (id, o) ∷ l

  -- The ids whose blob can be read, each with its object.
  unfoldable pub readable : Array → List (ℕ × Object)
  readable nil = []
  readable (cons v ids) =
      with_row (to_uint rt v) (row_of rt lib store (to_uint rt v)) (readable ids)

  kept_lem :
      (id : ℕ) (q : Option Object) (l : List (ℕ × Object))
      → kept rt lib store id q (cursor_of 0 l) ≡ cursor_of 0 (with_row id q l)
  kept_lem id none l = refl
  kept_lem id (some o) l = refl

  load-readable : (ids : Array) → load rt lib store ids ≡ cursor_of 0 (readable ids)
  unfolding load readable
  load-readable nil = refl
  load-readable (cons v ids) =
      let q = row_of rt lib store (to_uint rt v) in
      ap (kept rt lib store (to_uint rt v) q) (load-readable ids)
      ∙ kept_lem (to_uint rt v) q (readable ids)

  length-with_row :
      (id n : ℕ) (q : Option Object) (l : List (ℕ × Object))
      → length l ≤ n
      → length (with_row id q l) ≤ suc n
  length-with_row id n none l h = omega arith
  length-with_row id n (some o) l h = omega arith

  length-readable : (ids : Array) → length (readable ids) ≤ length_array ids
  unfolding readable length_array
  length-readable nil = omega arith
  length-readable (cons v ids) =
      let id = to_uint rt v in
      length-with_row id (length_array ids) (row_of rt lib store id) (readable ids)
        (length-readable ids)

-- A walk over a cursor after `xFilter`, whatever the constraint, comes to the end in as many steps
-- as there are candidates, those of the constraint or else all of the table's, and has visited just
-- the candidates whose blob can be read, in their order, each with its object.
pub scan-x_filter :
    (rt : Runtime) (lib : Library) (store : Blobs) (t : Table) (idx_num : ℤ) (op : Op)
    (arg : Argument)
    → let ids = or_ids (constrained rt t idx_num op arg) t.m_ids in
      scan (length_array ids) (x_filter rt lib store t idx_num op arg)
      ≡ some (readable rt lib store ids)
unfolding x_filter
scan-x_filter rt lib store t idx_num op arg =
    let ids = or_ids (constrained rt t idx_num op arg) t.m_ids in
    rw (load-readable rt lib store ids) (
      scan-drop (length_array ids) 0 (readable rt lib store ids)
        (omega (arith, length-readable rt lib store ids)) (omega arith)
      ∙ refl)
