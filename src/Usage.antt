-- ===== src/Usage.antt =====
-- internal/web/sniffer.go: the traffic of each port, counted in memory and merged into a file.
-- Counters are 64 bits wide. Ports are not negative. A JSON file is the list it decodes to. Saves run in
-- goroutines of their own and are cut where they meet shared state; the page, whose getUsageFromFile
-- creates a missing file, is not among the events.
pub mod Totals
pub mod Saved
use backhaul_plus.Prelude.{
  two_64, ℕ, ◌+◌, ◌%◌, Bool, true, false, List, [], ◌∷◌, ◌==◌, leb, if◌then◌else◌, ◌++◌, Option,
  some, remove_at, none,
}

pub record PortUsage : Type 0 where
  pub port : ℕ
  pub usage : ℕ

-- A sync.Map or map by port: each entry holds its key.
abbrev pub UsageMap : Type 0
UsageMap = List PortUsage

abbrev pub grown : PortUsage → ℕ → PortUsage
grown e usage = record e { usage = (e.usage + usage) % two_64 }

-- `AddOrUpdatePort`, on the store; with it `saveUsageData` adds to an entry or makes a new one.
unfoldable pub add_or_update_port : ℕ → ℕ → UsageMap → UsageMap
add_or_update_port port usage [] = record { port = port; usage = usage } ∷ []
add_or_update_port port usage (e ∷ m) =
    if e.port == port then grown e usage ∷ m else e ∷ add_or_update_port port usage m

-- `usageMap[usage.Port] = usage`
unfoldable pub set_port : PortUsage → UsageMap → UsageMap
set_port new [] = new ∷ []
set_port new (e ∷ m) = if e.port == new.port then new ∷ m else e ∷ set_port new m

unfoldable pub set_all : List PortUsage → UsageMap → UsageMap
set_all [] m = m
set_all (e ∷ es) m = set_all es (set_port e m)

unfoldable pub add_all : List PortUsage → UsageMap → UsageMap
add_all [] m = m
add_all (e ∷ es) m = add_all es (add_or_update_port e.port e.usage m)

-- Step 3: the entries of the file, and then those of the store.
unfoldable pub merge_usage : List PortUsage → List PortUsage → UsageMap
merge_usage existing current = add_all current (set_all existing [])

-- `totalTraffic`, summed over the entries.
unfoldable pub total_traffic : List PortUsage → ℕ → ℕ
total_traffic [] acc = acc
total_traffic (e ∷ es) acc = total_traffic es ((acc + e.usage) % two_64)

-- The log file: absent, unreadable, no JSON list, or a list.
pub data LogFile : Type 0 where
  missing unreadable undecodable : LogFile
  holds : List PortUsage → LogFile

-- How `os.WriteFile` ends: the file is not opened, it is cut off in the middle, or it is written. A front
-- part of a JSON list lacks its closing bracket.
pub data Written : Type 0 where
  not_opened cut_off whole : Written

abbrev pub write_file : Written → List PortUsage → LogFile → LogFile
write_file not_opened entries file = file
write_file cut_off entries file = undecodable
write_file whole entries file = holds entries

pub record Usage : Type 0 where
  pub data_store : UsageMap
  pub total : ℕ

-- A goroutine of `saveUsageData` that has read the file, with `existingUsageData`, or has emptied the
-- store and merged, with `mergedUsageData`.
pub data Saving : Type 0 where
  opened collected : List PortUsage → Saving

-- The log file, the monitor, and the saves that are under way, of which there may be several.
pub record Sniffer : Type 0 where
  pub file : LogFile
  pub usage : Usage
  pub saving : List Saving

-- Step 1. On a file that cannot be opened or decoded the save ends.
abbrev pub open_log : LogFile → List Saving → List Saving
open_log missing saving = saving ++ (opened [] ∷ [])
open_log unreadable saving = saving
open_log undecodable saving = saving
open_log (holds existing) saving = saving ++ (opened existing ∷ [])

-- Traffic that is counted, a save that a tick starts, and the next step of the save at a position.
pub data Event : Type 0 where
  adds : ℕ → ℕ → Event
  opens : Event
  save_at : ℕ → Written → Event

-- `shuffle` is the order in which Go ranges over a map.
module _ (shuffle : UsageMap → List PortUsage) where
  -- Steps 2 to 4, in which `collectUsageDataFromSyncMap` empties the store; and step 6. A save that has
  -- collected is put last.
  unfoldable pub save_step : Written → Option (Saving × List Saving) → Sniffer → Sniffer
  save_step written none s = s
  save_step written (some (opened existing, others)) s =
      let merged = shuffle (merge_usage existing (shuffle s.usage.data_store)) in
      record s {
        usage = record { data_store = []; total = total_traffic merged 0 };
        saving = others ++ (collected merged ∷ []);
      }
  save_step written (some (collected merged, others)) s = record s {
    file = write_file written merged s.file;
    saving = others;
  }

  unfoldable pub step : Event → Sniffer → Sniffer
  unfolding save_step
  step (adds q u) s = record s {
    usage = record s.usage { data_store = add_or_update_port q u s.usage.data_store };
  }
  step opens s = record s { saving = open_log s.file s.saving }
  step (save_at i written) s = save_step written (remove_at i s.saving) s

  unfoldable pub run : List Event → Sniffer → Sniffer
  run [] s = s
  run (e ∷ es) s = run es (step e s)
