-- ===== src/Ubj/Fixture.antt =====
-- A runtime for tests: memory for everything, and constants for the conversions of floats.
use zway_lib.Base.{true, []}
use zway_lib.Base.Int.{pos}
use zway_lib.Base.Text.{codes}
use zway_lib.Ubj.Value.{Runtime}

abbrev pub some_runtime : Runtime
some_runtime = record {
  malloc = λ n. true;
  float_to_int = λ l. pos 0;
  float_to_long = λ l. pos 0;
  double_to_int = λ l. pos 0;
  double_to_long = λ l. pos 0;
  float_is_zero = λ l. true;
  double_is_zero = λ l. true;
  print_int = λ n. codes "7";
  print_float = λ l. [];
  print_double = λ l. [];
}
