-- ===== src/Dynamo/Memory.antt =====
-- A table in memory that meets the laws of `Dynamo`: it shows that they can hold, and the tests
-- run on it. Each send takes the next entry of a script of faults.
use video_thingy_rocks.Common.{
  ℕ, refl, Bool, true, false, Option, none, some, List, [], ◌∷◌, arith, PortMap, map_set,
  if◌then◌else◌,
}
use video_thingy_rocks.Dynamo.{
  Reply, ok, conditional_check_failed, failed, UpdateCommand, DocumentClient, Laws,
}

-- `lost`: the write is stored and its response lost; `unreachable`: nothing happens.
pub data Fault : Type 0 where
  lost unreachable : Fault

pub record Memory (Item : Type 0) : Type 0 where
  pub items : PortMap Item
  pub faults : List (Option Fault)

abbrev next : List (Option Fault) → Option Fault × List (Option Fault)
next [] = (none, [])
next (f ∷ fs) = (f, fs)

abbrev update_reply : Option Fault → Reply → Reply
update_reply none r = r
update_reply (some f) r = failed

abbrev reached : Option Fault → Bool
reached none = true
reached (some lost) = true
reached (some unreachable) = false

module _ {Item : Type 0} where
  abbrev pub update_memory : UpdateCommand Item → Memory Item → Reply × Memory Item
  update_memory u m =
      let (f, fs) = next m.faults in
      if reached f
      then (if u.condition (m.items u.key)
          then (
            update_reply f ok,
            record { items = map_set m.items u.key (u.update (m.items u.key)); faults = fs },
          )
          else (update_reply f conditional_check_failed, record { items = m.items; faults = fs }))
      else (failed, record { items = m.items; faults = fs })

  abbrev put_memory : ℕ → Item → Memory Item → Reply × Memory Item
  put_memory k i m =
      let (f, fs) = next m.faults in
      if reached f
      then (update_reply f ok, record { items = map_set m.items k i; faults = fs })
      else (failed, record { items = m.items; faults = fs })

  abbrev get_result : Option Fault → Option Item → Option (Option Item)
  get_result none o = some o
  get_result (some f) o = none

  abbrev get_memory : ℕ → Memory Item → Option (Option Item) × Memory Item
  get_memory k m =
      let (f, fs) = next m.faults in
      (get_result f (m.items k), record { items = m.items; faults = fs })

abbrev pub memory : (Item : Type 0) → DocumentClient Item
memory Item = record {
  Table = Memory Item;
  item = λ m. m.items;
  send_update = update_memory;
  send_put = put_memory;
  send_get = get_memory;
}

pub memory-Laws : (Item : Type 0) → Laws (memory Item)
memory-Laws Item = record {
  update_atomic = λ u m. ground arith;
  update_ok = λ u m h. ground arith;
  update_refused = λ u m h. ground arith;
  update_others = λ u m k h. ground arith;
  get_keeps = λ k j m. refl;
  get_reads = λ k m o h. ground arith;
}
