-- ===== src/Core/Attribution/Groups.antt =====
-- crates/loadbear-core/src/attribution.rs: processes collapsed into groups that share a name.
pub mod Members
pub mod Partition
pub mod Representative
mod Examples
use text.Mathlib.Text.{◌==◌ as str_eq}
use Prim.Native.String.{◌++◌}
use loadbear.Prelude.{
  ℕ, ◌+◌, ◌-◌, ◌/◌, ◌^◌, min, Bool, String, Option, none, some, List, [], ◌∷◌, foldl, ltb,
  if◌then◌else◌, unwrap_or, is_none, show_ℕ, concat,
}
use loadbear.Float.{Float}
use loadbear.Core.Types.{ProcessReading}

-- `str::to_lowercase`, which the language supplies.
pub record Lowercase : Type 0 where
  pub to_lowercase : String → String

pub record ProcessGroup (F : Type 0) : Type 0 where
  pub name : String
  pub display : Option String
  pub representative_pid : ℕ
  pub count : ℕ
  pub cpu_percent : F
  pub working_set_bytes : ℕ

-- `u64::saturating_add`
abbrev pub saturating_add : ℕ → ℕ → ℕ
saturating_add a b = min (a + b) (2 ^ 64 - 1)

module _ {F : Type 0} where
  unfoldable pub label : ProcessGroup F → String
  label g =
      let name = unwrap_or g.display g.name in
      if ltb 1 g.count then concat (name ∷ " (" ∷ show_ℕ g.count ∷ " processes)" ∷ []) else name

  unfoldable pub new_group : ProcessReading F → ProcessGroup F
  new_group p = record {
    name = p.name;
    display = p.display_name;
    representative_pid = p.pid;
    count = 1;
    cpu_percent = p.cpu_percent;
    working_set_bytes = p.working_set_bytes;
  }

module _ {F : Type 0} ⦃f : Float F⦄ where
  -- The branch that finds a group. The mean is taken over the sum and count just updated.
  unfoldable pub join : ProcessGroup F → ProcessReading F → ProcessGroup F
  join g p =
      let count = g.count + 1 in
      let bytes = saturating_add g.working_set_bytes p.working_set_bytes in
      record g {
        display = if is_none g.display then p.display_name else g.display;
        representative_pid =
            if ltb (bytes / count) p.working_set_bytes then p.pid else g.representative_pid;
        count = count;
        cpu_percent = f.add g.cpu_percent p.cpu_percent;
        working_set_bytes = bytes;
      }

-- Two names that differ in case at most.
abbrev pub same_name : ⦃l : Lowercase⦄ → String → String → Bool
same_name ⦃l⦄ a b = str_eq (l.to_lowercase a) (l.to_lowercase b)

module _ {F : Type 0} ⦃f : Float F⦄ ⦃l : Lowercase⦄ where
  -- The body of the loop: the first group of this name takes the process, or a new one is pushed.
  unfoldable pub add_process : List (ProcessGroup F) → ProcessReading F → List (ProcessGroup F)
  add_process [] p = new_group p ∷ []
  add_process (g ∷ gs) p = if same_name g.name p.name then join g p ∷ gs else g ∷ add_process gs p

  unfoldable pub group_by_name : List (ProcessReading F) → List (ProcessGroup F)
  group_by_name = foldl add_process []
