-- ===== src/Ubj/Store/Bind/Tests.antt =====
-- What statements of a table that is not virtual bind.
use zway_lib.Base.{◌≡◌, refl, true, false, Option, some, none, List, [], ◌∷◌}
use zway_lib.Base.Int.{pos}
use zway_lib.Base.Text.{codes}
use zway_lib.Buffer.{MemoryBuffer}
use zway_lib.Ubj.Fixture.{some_runtime}
use zway_lib.Ubj.Key.{cmp}
use zway_lib.Ubj.Value.{Value, field, end, cons, nil, of_bool, of_object, Array, null}
use zway_lib.Ubj.Object.{find, has_field, value_has_field}
use zway_lib.Ubj.Store.Bind.{bind_value, int, Binding, bind_null}

abbrev no_bytes : Value → Option MemoryBuffer
no_bytes v = none

abbrev flags : List Value
flags = of_bool true ∷ of_bool false ∷ null ∷ []

abbrev calls : List Binding
calls = int (pos 1) ∷ int (pos 0) ∷ bind_null ∷ []

abbrev list : Array
list = cons (of_bool true) nil

binds_null :
    bind_value some_runtime false no_bytes (of_object (field (codes "$bindNull") null end))
    ≡ some bind_null
unfolding bind_value value_has_field has_field find cmp
binds_null = refl
