-- ===== src/App/Running/Rows.antt =====
-- How many rows the list has.
use loadbear.Prelude.{
  ℕ, zero, suc, ◌+◌, ◌*◌, min, ◌≤◌, ◌≡◌, refl, ap, inl, inr, Bool, not, List, [], ◌∷◌, ◌++◌, map,
  length, length-append, length-sort_by, count_if, sort_by, Bool-cases, arith,
}
use loadbear.Float.{Float}
use loadbear.Core.Types.{Resource, ContainerReading, Reading}
use loadbear.Core.Tier.{Assessment}
use loadbear.Core.Attribution.Groups.{Lowercase, ProcessGroup, group_by_name}
use loadbear.App.Running.{
  Contributor, running_rows, take, ranked_by, is_docker_name, by_weight, by_container, group_row,
  container_row, rows_of, all_rows, running_list,
}

length-take : {A : Type 0} (n : ℕ) (xs : List A) → length (take n xs) ≡ min n (length xs)
length-take zero xs = omega arith
length-take (suc n) [] = omega arith
length-take (suc n) (x ∷ xs) = omega (arith, length-take n xs)

length-map : {A B : Type 0} (g : A → B) (xs : List A) → length (map g xs) ≡ length xs
length-map g [] = refl
length-map g (x ∷ xs) = ap suc (length-map g xs)

count_if-append :
    {A : Type 0} (p : A → Bool) (xs ys : List A)
    → count_if p (xs ++ ys) ≡ count_if p xs + count_if p ys
count_if-append p [] ys = omega arith
count_if-append p (x ∷ xs) ys = ground (arith, count_if-append p xs ys)

module _ (D F : Type 0) ⦃d : Float D⦄ ⦃f : Float F⦄ ⦃l : Lowercase⦄ where
  -- A row for a group of processes.
  abbrev pub is_process : Contributor D F → Bool
  is_process c = not c.is_container

  count-containers :
      (cs : List (ContainerReading F)) → count_if is_process (map container_row cs) ≡ 0
  unfolding container_row
  count-containers [] = refl
  count-containers (c ∷ cs) = count-containers cs

  rows_of_lem :
      (r : Resource) (cs : List (ContainerReading F)) (g : ProcessGroup F)
      → (count_if is_process (rows_of r cs g) ≡ 1)
        × (length {A = Contributor D F} (rows_of r cs g) ≤ 5)
  unfolding rows_of group_row
  rows_of_lem r cs g =
      let listed = take 4 (sort_by (by_container r) cs) in
      elim (Bool-cases (is_docker_name g.name)) [
        | inl e ↦ rw e (
          ap suc (count-containers listed),
          omega (
            arith,
            length-map (container_row {D = D}) listed,
            length-take 4 (sort_by (by_container r) cs),
          ),
        )
        | inr e ↦ rw e (refl, omega arith)
      ]

  all_rows_lem :
      (r : Resource) (cs : List (ContainerReading F)) (gs : List (ProcessGroup F))
      → (count_if is_process (all_rows r cs gs) ≡ length gs)
        × (length {A = Contributor D F} (all_rows r cs gs) ≤ 5 * length gs)
  unfolding all_rows
  all_rows_lem r cs [] = (refl, omega arith)
  all_rows_lem r cs (g ∷ gs) =
      let (one, five) = rows_of_lem r cs g in
      let (n, m) = all_rows_lem r cs gs in
      (
        omega (arith, count_if-append is_process (rows_of r cs g) (all_rows r cs gs), one, n),
        omega (arith, length-append (rows_of {D = D} r cs g) (all_rows r cs gs), five, m),
      )

  -- The list has a row for each group of processes, up to the fourteen heaviest, and no more than four
  -- rows of containers under each, so at most seventy in all.
  pub running_list-bounded :
      (reading : Reading F) (a : Assessment)
      → (count_if is_process (running_list reading a)
          ≡ min running_rows (length (group_by_name reading.processes)))
        × (length {A = Contributor D F} (running_list reading a) ≤ 70)
  unfolding running_list
  running_list-bounded reading a =
      let groups = sort_by (by_weight (ranked_by a)) (group_by_name reading.processes) in
      let (n, m) = all_rows_lem (ranked_by a) reading.containers (take running_rows groups) in
      let k = length-take running_rows groups in
      let same = length-sort_by (by_weight (ranked_by a)) (group_by_name reading.processes) in
      (omega (arith, n, k, same), omega (arith, m, k))
