-- ===== src/Sensors/Processes/Description/Examples.antt =====
-- A program whose version resource has a name with spaces and a closing 0.
use loadbear.Prelude.{
  ℕ, ◌≡◌, refl, true, false, String, Option, none, some, List, [], ◌∷◌, ◌++◌, chars, All, AllSome,
  if◌then◌else◌,
}
use loadbear.Float.Fixed.{Fixed, fixed_float}
use loadbear.Sensors.Processes.{RawProcess, new, same_chars}
use loadbear.Sensors.Processes.Description.{
  Version, Value, translation_key, file_description, enumerate_pids,
}
use loadbear.Sensors.Processes.Description.Runs.{
  Sampled, sample_all, IsTidyText, sample_all-AreTidy,
}

abbrev stored : List ℕ
stored = chars " Code Editor " ++ 0 ∷ 0 ∷ []

-- The pair is US English and Unicode.
abbrev asked : List ℕ → Option Value
asked key =
    if same_chars key translation_key
    then some (record { is_null = false; units = 0x0409 ∷ 0x04b0 ∷ []; len = 4 })
    else if same_chars key (chars "\\StringFileInfo\\040904b0\\FileDescription")
    then some (record { is_null = false; units = stored; len = 15 })
    else none

abbrev editor : Version
editor = record { size = 1000; loads = true; query = asked }

name_of_editor : file_description (λ units. units) editor ≡ some (chars "Code Editor")
unfolding file_description
name_of_editor = refl

pids_of_two :
    enumerate_pids (some (record { pids = 4 ∷ 812 ∷ 0 ∷ []; returned_bytes = 8 })) ≡ 4 ∷ 812 ∷ []
unfolding enumerate_pids
pids_of_two = refl

abbrev running : RawProcess
running = record {
  pid = 812;
  name = "Code";
  path = "C:\\Code.exe";
  cpu_100ns = 100;
  working_set_bytes = 4096;
}

abbrev run : List Sampled
run =
    record { raw = running ∷ []; now_ms = 500; version = λ path. editor }
    ∷ record { raw = running ∷ running ∷ []; now_ms = 1000; version = λ path. editor }
    ∷ []

abbrev as_text : List ℕ → String
as_text name = "Code Editor"

sample_all-AreTidy_example :
    All
      (All (λ r. AllSome (IsTidyText (λ units. units) as_text) r.display_name))
      (sample_all {D = Fixed} {F = Fixed} (λ x. x) (λ units. units) as_text run (new 8))
sample_all-AreTidy_example =
    sample_all-AreTidy {D = Fixed} {F = Fixed} (λ x. x) (λ units. units) as_text run 8
