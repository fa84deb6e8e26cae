-- ===== src/Registry/Tests.antt =====
-- A registry of numbers, in which the even ones are closers.
use gost_x.Prelude.{
  ℕ, ◌+◌, ◌%◌, ◌≡◌, refl, Bool, ◌==◌, none, List, [], ◌∷◌, is_some, is_empty, if◌then◌else◌,
}
use gost_x.Text.{codes}
use gost_x.Code.{text_code}
use gost_x.Registry.{
  register, unregister, is_registered, get, Call, registers, unregisters, call, calls, unused,
}
use gost_x.Registry.Closing.{count_of, count_in, count-calls}
use gost_x.Registry.Names.{renamed_all, get-calls}

abbrev even : ℕ → Bool
even n = n % 2 == 0

abbrev used : List (Call ℕ)
used =
    registers (codes "a") 2
    ∷ registers (codes "a") 4
    ∷ registers [] 6
    ∷ registers (codes "b") 8
    ∷ unregisters (codes "a")
    ∷ unregisters (codes "c")
    ∷ registers (codes "a") 10
    ∷ []

closed_two : (calls even used unused).closed ≡ 2 ∷ []
unfolding text_code register unregister call calls
closed_two = refl

count-calls_example :
    count_of even (calls even used unused).taken
    ≡ count_in even (calls even used unused).entries + count_of even (calls even used unused).closed
count-calls_example = count-calls even used even (λ v e. e)

get-calls_example :
    (is_registered (codes "a") (calls even used unused).entries
      ≡ is_some (renamed_all used (λ i. none) (codes "a")))
    × (get (codes "a") (calls even used unused).entries
        ≡ (if is_empty (codes "a") then none else renamed_all used (λ i. none) (codes "a")))
get-calls_example = get-calls even used (codes "a")
