-- ===== src/Sensors/Mapping/Lifetime.antt =====
-- crates/loadbear-sensors-windows/src/mapping.rs: creating, opening and dropping the mapping, as the calls
-- that are made in order. Whether a call of the system succeeds is a parameter.
use loadbear.Prelude.{◌≡◌, Bool, true, false, Option, none, some, List, [], ◌∷◌, ◌++◌, arith}
use loadbear.Prelude.Calls.{ok, err, Calls, ◌>>◌, call, guard}

pub data MappingError : Type 0 where
  not_published create_failed map_failed : MappingError

-- A call, with whether it succeeds where the program looks at it.
pub data Call : Type 0 where
  convert_descriptor : Bool → Call
  create_mapping : Bool → Call
  open_mapping : Bool → Call
  map_view : Bool → Call
  write_default : Call
  unmap_view : Call
  close_handle : Call

-- The view of a handle, which is closed where there is none. `maps` says whether there is one.
abbrev mapped : Bool → List Call → Calls Call MappingError (Unit {0})
mapped true next = (map_view true ∷ next, ok tt)
mapped false next = (map_view false ∷ close_handle ∷ [], err map_failed)

-- `TemperaturePublisher::create`
pub create_publisher : Bool → Bool → Bool → Calls Call MappingError (Unit {0})
create_publisher converts creates maps = do
  call (convert_descriptor converts)
  guard converts create_failed
  call (create_mapping creates)
  guard creates create_failed
  mapped maps (write_default ∷ [])

-- `TemperatureReader::open`
pub open_reader : Bool → Bool → Calls Call MappingError (Unit {0})
open_reader opens maps = do call (open_mapping opens); guard opens not_published; mapped maps []

-- `drop` of either.
pub dropped : List Call
dropped = unmap_view ∷ close_handle ∷ []

-- What the process holds: a handle of the mapping, and a view of it.
pub data Held : Type 0 where
  nothing handle view : Held

-- What is held after a call, where it is allowed: a view is of a handle, and is given back before it.
abbrev pub after_call : Call → Held → Option Held
after_call (create_mapping true) nothing = some handle
after_call (create_mapping false) nothing = some nothing
after_call (create_mapping a) _ = none
after_call (open_mapping true) nothing = some handle
after_call (open_mapping false) nothing = some nothing
after_call (open_mapping a) _ = none
after_call (map_view true) handle = some view
after_call (map_view false) handle = some handle
after_call (map_view a) _ = none
after_call write_default view = some view
after_call write_default _ = none
after_call unmap_view view = some handle
after_call unmap_view _ = none
after_call close_handle handle = some nothing
after_call close_handle _ = none
after_call (convert_descriptor a) held = some held

pub after_calls : List Call → Held → Option Held
after_calls [] held = some held
after_calls (c ∷ calls) held = elim (after_call c held) [
  | none ↦ none
  | some held' ↦ after_calls calls held'
]

-- A success holds the view, which a drop gives back with the handle; a failure holds nothing.
abbrev pub Balanced : Calls Call MappingError (Unit {0}) → Type 0
Balanced (calls, ok u) =
    (after_calls calls nothing ≡ some view)
    × (after_calls (calls ++ dropped) nothing ≡ some nothing)
Balanced (calls, err e) = after_calls calls nothing ≡ some nothing

-- Whatever the system answers, a publisher or a reader that could not be made holds nothing, and one that was
-- made holds its view until it is dropped, which gives back the view and then the handle.
pub publisher_and_reader-Balanced :
    (converts creates opens maps : Bool)
    → Balanced (create_publisher converts creates maps) × Balanced (open_reader opens maps)
unfolding create_publisher open_reader dropped after_calls
publisher_and_reader-Balanced converts creates opens maps = ground arith
