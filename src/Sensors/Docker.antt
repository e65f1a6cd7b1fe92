-- ===== src/Sensors/Docker.antt =====
-- crates/loadbear-sensors-windows/src/docker.rs: the running containers, from the engine's answers. The
-- answer to each path is a parameter; a text of code points is turned into a `String` by a parameter.
pub mod Http
pub mod Json
pub mod Percent
mod Examples
use loadbear.Prelude.{
  ℕ, zero, suc, ◌-◌, Bool, ◌||◌, String, Option, none, some, List, [], ◌∷◌, ◌++◌, ltb, leb, ◌==◌,
  if◌then◌else◌, ◌>>=◌, unwrap_or, filter_map, chars,
}
use loadbear.Float.{Float, zero_float, clamp}
use loadbear.Core.Types.{ContainerReading}
use loadbear.Sensors.Docker.Json.{array_items, string, first_name, nested_u64}

-- The first twelve characters.
take_chars : ℕ → List ℕ → List ℕ
take_chars zero s = []
take_chars (suc n) [] = []
take_chars (suc n) (c ∷ s) = c ∷ take_chars n s

pub short_id : List ℕ → List ℕ
unfolding take_chars
short_id = take_chars 12

-- The paths of the two requests.
abbrev pub list_path : List ℕ
list_path = chars "/v1.43/containers/json"

abbrev pub stats_path : List ℕ → List ℕ
stats_path id = chars "/v1.43/containers/" ++ id ++ chars "/stats?stream=false&one-shot=true"

-- A limit of zero is none.
abbrev above_zero : Option ℕ → Option ℕ
above_zero o = do l ← o; if ltb 0 l then some l else none

module _ {D F : Type 0} ⦃d : Float D⦄ ⦃f : Float F⦄ (as_f32 : D → F) where
  -- The part of `cpu_percent` below the check that all four figures are there.
  pub percent_of : ℕ → ℕ → ℕ → ℕ → F
  percent_of total pre_total system pre_system =
      if pre_total == 0 || pre_system == 0 || leb system pre_system
      then zero_float
      else if d.le (d.of_ℕ (system - pre_system)) zero_float
      then zero_float
      else as_f32 (
          clamp
            (d.mul (d.div (d.of_ℕ (total - pre_total)) (d.of_ℕ (system - pre_system)))
              (d.decimal 1000 1))
            zero_float (d.decimal 1000 1))

  figures : Option ℕ → Option ℕ → Option ℕ → Option ℕ → F
  figures (some total) (some pre_total) (some system) (some pre_system) =
      percent_of total pre_total system pre_system
  figures _ _ _ _ = zero_float

  pub cpu_percent : List ℕ → F
  unfolding figures
  cpu_percent stats =
      figures (nested_u64 stats "cpu_stats" "cpu_usage_total_usage")
        (nested_u64 stats "precpu_stats" "cpu_usage_total_usage")
        (nested_u64 stats "cpu_stats" "system_cpu_usage")
        (nested_u64 stats "precpu_stats" "system_cpu_usage")

  -- The reading of a container from its id, its name and the statistics, where there are any.
  container : (List ℕ → String) → List ℕ → List ℕ → Option (List ℕ) → ContainerReading F
  unfolding cpu_percent
  container text id name none = record {
    id = text id;
    name = text name;
    cpu_percent = zero_float;
    memory_bytes = 0;
    memory_limit_bytes = none;
  }
  container text id name (some s) = record {
    id = text id;
    name = text name;
    cpu_percent = cpu_percent s;
    memory_bytes = unwrap_or (nested_u64 s "memory_stats" "usage") 0;
    memory_limit_bytes = above_zero (nested_u64 s "memory_stats" "limit");
  }

  -- The body of the loop over the objects of the list; one without an id is passed over.
  container_of :
      (List ℕ → String) → (List ℕ → Option (List ℕ)) → List ℕ → Option (ContainerReading F)
  unfolding container
  container_of text get entry = do
    id ← string entry (chars "Id")
    some (container text id (unwrap_or (first_name entry) (short_id id)) (get (stats_path id)))

  -- What becomes of the list of containers, where there is one.
  containers_in :
      (List ℕ → String) → (List ℕ → Option (List ℕ)) → Option (List ℕ) → List (ContainerReading F)
  unfolding container_of
  containers_in text get none = []
  containers_in text get (some list) = filter_map (container_of text get) (array_items list)

  pub read_containers : (List ℕ → String) → (List ℕ → Option (List ℕ)) → List (ContainerReading F)
  unfolding containers_in
  read_containers text get = containers_in text get (get list_path)
