-- ===== src/Tests/Races.antt =====
-- Two horses in a race.
use sharedhashfile.Prelude.{◌≡◌, ◌≢◌, refl, arith}
use sharedhashfile.Prelude.Family.{update}
use sharedhashfile.Process.Race.{
  Race, Reach, start, later, away, waiting, started, add, go, runs, race_line, race_fair,
}

abbrev one_horse : Race
one_horse = record { word = 1; horse = update (λ i. away) 0 waiting }

abbrev two_horses : Race
two_horses = record { word = 2; horse = update one_horse.horse 1 waiting }

both_added : Reach 2 two_horses
both_added =
    later (later (start 0 (omega arith) refl) (runs 0 (omega arith) add)) (runs 1 (omega arith) add)

abbrev one_started : Race
one_started = record { word = 2; horse = update two_horses.horse 0 started }

first_started : Reach 2 one_started
first_started = later both_added (runs 0 (omega arith) (go refl))

race_fair_example : (one_started.horse 1 ≢ away) × (race_line one_started.word ≡ 2)
race_fair_example = race_fair 0 1 (omega arith) first_started (omega arith) (omega arith) refl
