-- ===== src/Ubj/Format/Tests.antt =====
-- Runs of the reader and the writer, with a library that spells one tree.
use zway_lib.Base.{◌≡◌, inl, refl, some, [], ◌∷◌, arith}
use zway_lib.Base.Int.{negsuc}
use zway_lib.Base.Text.{codes}
use zway_lib.Buffer.{MemoryBuffer, bytes, of_bytes}
use zway_lib.Ubj.Fixture.{some_runtime}
use zway_lib.Ubj.Value.{
  Value, value, buffered, null, end, field, nil, cons, of_object, of_array, int32, string,
}
use zway_lib.Ubj.Value.Convert.{to_int, bytes4, word, two32}
use zway_lib.Ubj.Object.{length_object}
use zway_lib.Ubj.Key.{cmp}
use zway_lib.Ubj.Format.{Library, write_int32, begin_object, end_container}
use zway_lib.Ubj.Format.Writer.{write, value_calls}
use zway_lib.Ubj.Format.Reader.{read}
use zway_lib.Ubj.Format.RoundTrip.{IsText, IsStorable, tree}
use zway_lib.Ubj.Format.RoundTrip.Whole.{read-write_value}

abbrev five : Value
five = value int32 (buffered (of_bytes (bytes4 (word two32 (negsuc 4)))))

abbrev hello : Value
hello = value string (buffered (of_bytes (codes "hello")))

abbrev nested : Value
nested = of_array (cons five (cons null nil))

abbrev message : Value
message =
    of_object
      (field (codes "id") five (field (codes "list") nested (field (codes "name") hello end)))

-- Any list of calls is one byte, and any byte reads as the message's tree.
abbrev one_tree : Library
one_tree = record { written = λ l. 1 ∷ []; read_dynamic = λ l. tree some_runtime message }

five-IsStorable : IsStorable five
five-IsStorable = (negsuc 4, omega arith, refl)

hello-IsText : IsText (codes "hello")
hello-IsText = (omega arith, (omega arith, (omega arith, (omega arith, (omega arith, tt)))))

message-IsStorable : IsStorable message
unfolding cmp
message-IsStorable = (
  refl,
  ((refl, (refl, tt)), ((refl, tt), (tt, tt))),
  (
    (omega arith, (omega arith, tt)),
    five-IsStorable,
    (
      (omega arith, (omega arith, (omega arith, (omega arith, tt)))),
      (refl, (five-IsStorable, (tt, tt))),
      (
        (omega arith, (omega arith, (omega arith, (omega arith, tt)))),
        (codes "hello", hello-IsText, refl),
        tt,
      ),
    ),
  ),
)

empty_key :
    value_calls some_runtime (of_object (field [] five end))
    ≡ begin_object 1 ∷ write_int32 (negsuc 4) ∷ end_container ∷ []
unfolding value_calls length_object to_int
empty_key = refl

read-write_value_example :
    (b : MemoryBuffer) × (write some_runtime one_tree message ≡ some b)
    × (read some_runtime one_tree null (bytes b) ≡ some message)
read-write_value_example =
    read-write_value some_runtime one_tree message (λ n. refl) message-IsStorable (inl refl)
      (omega arith, refl)
