-- ===== src/Ubj/Table/Cursor/Equals.antt =====
-- A filter of a virtual table by the row's id (src/ubj/store/module.cpp).
use zway_lib.Base.{ℕ, ◌≡◌, ◌<◌, ◌%◌, refl, ap, ◌∙◌, true, some, [], arith, inl}
use zway_lib.Base.Int.{pos, negsuc}
use zway_lib.Ubj.Key.{Key}
use zway_lib.Ubj.Value.{Runtime}
use zway_lib.Ubj.Value.Convert.{of_ulong, to_uint, to_int, two32, two64}
use zway_lib.Ubj.Value.Numbers.{of_ulong_lem, word8-bytes8, word-signed}
use zway_lib.Ubj.Object.{length_array}
use zway_lib.Ubj.Format.{Library}
use zway_lib.Ubj.Table.{Blobs, row_of}
use zway_lib.Ubj.Table.Cursor.{Table, op_eq, Argument, integer, x_filter}
use zway_lib.Ubj.Table.Cursor.Scan.{scan, readable, with_row, scan-x_filter}

to_uint-of_ulong :
    (rt : Runtime) (n : ℕ)
    → ((n : ℕ) → rt.malloc n ≡ true)
    → n < two32
    → to_uint rt (of_ulong rt n) ≡ n
unfolding to_uint to_int
to_uint-of_ulong rt n memory h =
    rw (of_ulong_lem rt memory n, word8-bytes8 n (omega arith), small)
      (word-signed two32 n (inl refl) h)
  where
    small : n % two32 ≡ n
    small = omega arith

-- While memory lasts, a filter by a row's id of 32 bits visits the blob of that id, if it can be read,
-- and nothing else, whether or not the id is one of the table's.
pub scan-row_id :
    (rt : Runtime) (lib : Library) (store : Blobs) (t : Table) (id : ℕ) (s : Key)
    → ((n : ℕ) → rt.malloc n ≡ true)
    → id < two32
    → let arg : Argument = record { value_type = integer; value_int64 = pos id; value_text = s } in
      scan 1 (x_filter rt lib store t (negsuc 0) op_eq arg)
      ≡ some (with_row rt lib store id (row_of rt lib store id) [])
unfolding length_array readable
scan-row_id rt lib store t id s memory h =
    scan-x_filter rt lib store t (negsuc 0) op_eq
      (record { value_type = integer; value_int64 = pos id; value_text = s })
    ∙ ap (λ j. some (with_row rt lib store j (row_of rt lib store j) [])) same
  where
    small : id % two64 ≡ id
    small = omega arith

    same : to_uint rt (of_ulong rt (id % two64)) ≡ id
    same = ap (λ n. to_uint rt (of_ulong rt n)) small ∙ to_uint-of_ulong rt id memory h
