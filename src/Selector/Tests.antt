-- ===== src/Selector/Tests.antt =====
-- Selectors over three nodes: node 0 has failed now, node 1 is a backup of weight 5.
use gost_x.Prelude.{
  ℕ, zero, suc, ◌≡◌, refl, false, ◌==◌, Option, none, some, List, [], ◌∷◌, if◌then◌else◌, arith,
}
use gost_x.Int64.{add64, neg64, gt64}
use gost_x.Selector.{
  Marker, Traits, FailFilter, Draw, round_robin, random, fifo, max_fails_of, fail_timeout_of,
  is_alive, fail_filter, is_backup, backup_filter, weight_of, add_items, next_item, next, apply,
  apply_filters, select_one,
}
use gost_x.Selector.Filters.{select_one-first_of}
use gost_x.Selector.Rounds.{picks, picks-round_robin}
use gost_x.Selector.Weights.{apply-random}

abbrev node_marker : ℕ → Option Marker
node_marker zero = some (record { count = 1; time = 90 })
node_marker (suc n) = none

abbrev traits : Traits ℕ
traits = record {
  exists = λ v k. false;
  get_int = λ v k. if v == 1 then 5 else 0;
  get_duration = λ v k. 0;
  get_bool = λ v k. v == 1;
  marker = node_marker;
}

abbrev draw : ℕ → Draw
draw n = record { intn = λ m. n; source = none }

abbrev fails : FailFilter
fails = record { max_fails = 0; fail_timeout = 0 }

abbrev nodes : List ℕ
nodes = 0 ∷ 1 ∷ 2 ∷ []

unfoldable code : Unit {0}
unfolding add64 neg64 gt64 max_fails_of fail_timeout_of is_alive fail_filter is_backup backup_filter
    weight_of add_items next_item next apply apply_filters select_one picks
code = tt

second_choice :
    select_one traits (draw 0) fifo (fail_filter traits fails 100 ∷ backup_filter traits ∷ []) nodes
    ≡ (fifo, some 2)
unfolding code
second_choice = refl

select_one-first_of_example :
    select_one traits (draw 0) fifo (fail_filter traits fails 100 ∷ backup_filter traits ∷ []) nodes
    ≡ (fifo, some 2)
unfolding code
select_one-first_of_example = select_one-first_of traits (draw 0) fails 100 nodes (omega arith)

picks-round_robin_example :
    picks traits (draw 0) 3 (round_robin 7) nodes ≡ some 1 ∷ some 2 ∷ some 0 ∷ []
picks-round_robin_example = picks-round_robin traits (draw 0) 7 0 (1 ∷ 2 ∷ []) (omega arith)

apply-random_example : apply traits (draw 3) random nodes ≡ (random, some 1)
unfolding code
apply-random_example =
    apply-random traits (draw 3) (0 ∷ []) (2 ∷ []) 1 (omega arith) (omega arith) (omega arith)
