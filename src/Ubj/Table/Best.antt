-- ===== src/Ubj/Table/Best.antt =====
-- `xBestIndex` of src/ubj/store/module.cpp: which constraint of a query a filter gets.
-- A constraint's column is `none` for -1, the row's id. That looking for a column's hits adds a null
-- to `m_hitmap` under a new key is left out: a null has no hits.
use zway_lib.Base.{
  ℕ, zero, suc, ◌≡◌, refl, Bool, true, false, not, ◌&&◌, ◌||◌, Option, none, some, List, [], ◌∷◌,
  ltb, ◌==◌, if◌then◌else◌, drop, arith,
}
use zway_lib.Base.Int.{ℤ, pos, negsuc}
use zway_lib.Ubj.Key.{Key}
use zway_lib.Ubj.Value.{Runtime, Object}
use zway_lib.Ubj.Value.Convert.{to_uint}
use zway_lib.Ubj.Object.{at_key}
use zway_lib.Ubj.Table.Cursor.{Op, column_at, nth}

pub record Constraint : Type 0 where
  pub i_column : Option ℕ
  pub op : Op

-- `numValues`, `idx` and `ix` of the loop.
pub record Choice : Type 0 where
  pub num_values : ℕ
  pub idx : ℤ
  pub ix : ℕ

-- `idxNum`, and the constraint whose value `xFilter` gets, with its operation.
pub record Plan : Type 0 where
  pub idx_num : ℤ
  pub used : Option (ℕ × Op)

module _ (rt : Runtime) (m_columns : List Key) (m_hitmap : Object) where
  abbrev pub considered : ℕ → Option ℕ → Choice → Choice
  considered i none ch = record ch { idx = negsuc 0; ix = i }
  considered i (some c) ch =
      let hits = to_uint rt (at_key (column_at c m_columns) m_hitmap) in
      if not (hits == 0) && ((ch.num_values == 0) || ltb hits ch.num_values)
      then record { num_values = hits; idx = pos (suc c); ix = i }
      else ch

  -- The loop over the constraints from the `i`-th on.
  unfoldable pub choose : ℕ → List Constraint → Choice → Choice
  choose i [] ch = ch
  choose i (c ∷ cs) ch = choose (suc i) cs (considered i c.i_column ch)

  abbrev pub op_at : ℕ → Option Constraint → Option (ℕ × Op)
  op_at i none = none
  op_at i (some c) = some (i, c.op)

  abbrev pub planned : List Constraint → Choice → ℤ → Plan
  planned cs ch (pos zero) = record { idx_num = pos zero; used = none }
  planned cs ch idx = record { idx_num = idx; used = op_at ch.ix (nth ch.ix cs) }

  unfoldable pub x_best_index : List Constraint → Plan
  unfolding choose
  x_best_index cs =
      let ch = choose 0 cs (record { num_values = 0; idx = pos zero; ix = 0 }) in
      planned cs ch ch.idx

-- A choice names no constraint, one on the row's id, or one on the column.
abbrev Names : List Constraint → ℤ → ℕ → Type 0
Names cs (pos zero) ix = Unit {0}
Names cs (pos (suc c)) ix = (op : Op) × (nth ix cs ≡ some (record { i_column = some c; op = op }))
Names cs (negsuc zero) ix = (op : Op) × (nth ix cs ≡ some (record { i_column = none; op = op }))
Names cs (negsuc (suc n)) ix = ⊥

nth-drop :
    (i : ℕ) (all cs : List Constraint) (c : Constraint)
    → drop i all ≡ c ∷ cs
    → (nth i all ≡ some c) × (drop (suc i) all ≡ cs)
nth-drop zero [] cs c e = absurd (ground (arith, e))
nth-drop zero (d ∷ all) cs c e = ground (arith, e)
nth-drop (suc i) [] cs c e = absurd (ground (arith, e))
nth-drop (suc i) (d ∷ all) cs c e = nth-drop i all cs c e

module _ (rt : Runtime) (columns : List Key) (hitmap : Object) (all : List Constraint) where
  considered-Names :
      (i : ℕ) (q : Option ℕ) (op : Op) (ch : Choice)
      → nth i all ≡ some (record { i_column = q; op = op })
      → Names all ch.idx ch.ix
      → Names all (considered rt columns hitmap i q ch).idx (considered rt columns hitmap i q ch).ix
  considered-Names i none op ch e h = (op, e)
  considered-Names i (some c) op ch e h =
      let hits = to_uint rt (at_key (column_at c columns) hitmap) in
      by_hits (not (hits == 0) && ((ch.num_values == 0) || ltb hits ch.num_values)) hits
    where
      by_hits :
          (b : Bool) (n : ℕ)
          → let next : Choice =
              if b then record { num_values = n; idx = pos (suc c); ix = i } else ch in
            Names all next.idx next.ix
      by_hits true n = (op, e)
      by_hits false n = h

  choose-Names :
      (i : ℕ) (cs : List Constraint) (ch : Choice)
      → drop i all ≡ cs
      → Names all ch.idx ch.ix
      → Names all (choose rt columns hitmap i cs ch).idx (choose rt columns hitmap i cs ch).ix
  unfolding choose
  choose-Names i [] ch e h = h
  choose-Names i (c ∷ cs) ch e h =
      let (here, behind) = nth-drop i all cs c e in
      choose-Names (suc i) cs (considered rt columns hitmap i c.i_column ch) behind
        (considered-Names i c.i_column c.op ch here h)

-- What a plan says of the constraints.
abbrev pub Serves : List Constraint → Plan → Type 0
Serves cs p = elim p.idx_num [
  | pos zero ↦ p.used ≡ none
  | pos (suc c) ↦
      (i : ℕ) × (op : Op) × (p.used ≡ some (i, op))
      × (nth i cs ≡ some (record { i_column = some c; op = op }))
  | negsuc zero ↦
      (i : ℕ) × (op : Op) × (p.used ≡ some (i, op))
      × (nth i cs ≡ some (record { i_column = none; op = op }))
  | negsuc (suc n) ↦ ⊥
]

planned-Serves :
    (rt : Runtime) (columns : List Key) (hitmap : Object) (cs : List Constraint) (ch : Choice)
    (idx : ℤ)
    → Names cs idx ch.ix
    → Serves cs (planned rt columns hitmap cs ch idx)
planned-Serves rt columns hitmap cs ch (pos zero) h = refl
planned-Serves rt columns hitmap cs ch (pos (suc c)) (op, e) = (ch.ix, op, rw e refl, e)
planned-Serves rt columns hitmap cs ch (negsuc zero) (op, e) = (ch.ix, op, rw e refl, e)
planned-Serves rt columns hitmap cs ch (negsuc (suc n)) h = absurd h

-- Whatever the constraints of a query and the hits of the columns, the plan of `xBestIndex` fits the
-- constraint whose value `xFilter` gets: without an index none is used, with the row's id one on the
-- row's id, and with the index of a column one on that column, each with its own operation.
pub x_best_index-Serves :
    (rt : Runtime) (columns : List Key) (hitmap : Object) (cs : List Constraint)
    → Serves cs (x_best_index rt columns hitmap cs)
unfolding x_best_index
x_best_index-Serves rt columns hitmap cs =
    let start : Choice = record { num_values = 0; idx = pos zero; ix = 0 } in
    let ch = choose rt columns hitmap 0 cs start in
    planned-Serves rt columns hitmap cs ch ch.idx
      (choose-Names rt columns hitmap cs 0 cs start refl tt)
