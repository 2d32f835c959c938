-- ===== src/Ubj/Value/Tests.antt =====
-- Values under a runtime with memory for everything.
use zway_lib.Base.{◌≡◌, refl, some, none, [], ◌∷◌}
use zway_lib.Ubj.Fixture.{some_runtime}
use zway_lib.Ubj.Value.{null}
use zway_lib.Ubj.Value.Convert.{set_string, strlen}

-- Up to the first zero byte.
strlen_test : strlen (65 ∷ 66 ∷ 0 ∷ 67 ∷ []) ≡ 2
unfolding strlen
strlen_test = refl

-- An empty string sets nothing.
set_string_empty : set_string some_runtime null (some (0 ∷ [])) 0 ≡ none
unfolding set_string strlen
set_string_empty = refl
