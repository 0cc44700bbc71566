-- ===== src/Registry/Systems/Calls.antt =====
-- The methods of `SystemRegistry` that change it, as a data type, so that a history of the
-- registry is a list of calls. `bindingGeneration` changes what `resolveRoot` changes.
use ai_verse_dashboard.Base.{◌≢◌, Option, List, [], ◌∷◌}
use ai_verse_dashboard.Base.Text.{Text}
use ai_verse_dashboard.Registry.Compatibility.{Disk, Host}
use ai_verse_dashboard.Registry.Systems.{register, rebind, unregister, resolve_root, revalidate}
use ai_verse_dashboard.Registry.Bindings.{SystemRegistry, Readings}
use ai_verse_dashboard.Registry.Systems.Roots.{IsWellFormed}
use ai_verse_dashboard.Registry.Systems.Kept.{
  register-IsWellFormed, rebind-IsWellFormed, unregister-IsWellFormed, resolve_root-IsWellFormed,
  revalidate-IsWellFormed,
}

pub data Call : Type 0 where
  registers : Readings → Text → Text → Option Text → Option Text → Call
  rebinds : Readings → Text → Text → Text → Call
  unregisters : Text → Call
  resolves : Disk → Text → Text → Call
  revalidates : Disk → Disk → Text → Text → Call

unfoldable pub run : Host → Call → SystemRegistry → SystemRegistry
run host (Call.registers disks now candidate id label) reg =
    (register host disks now candidate id label reg).1
run host (Call.rebinds disks now id candidate) reg = (rebind host disks now id candidate reg).1
run host (Call.unregisters id) reg = (unregister id reg).1
run host (Call.resolves disk now id) reg = (resolve_root disk now id reg).1
run host (Call.revalidates bound probed now id) reg = (revalidate host bound probed now id reg).1

unfoldable pub run_all : Host → List Call → SystemRegistry → SystemRegistry
run_all host [] reg = reg
run_all host (call ∷ calls) reg = run_all host calls (run host call reg)

-- The call neither approves a root for the system nor forgets it.
abbrev pub Spares : Text → Call → Type 0
Spares id (Call.rebinds disks now id' candidate) = id' ≢ id
Spares id (Call.unregisters id') = id' ≢ id
Spares id (Call.registers disks now candidate id' label) = Unit
Spares id (Call.resolves disk now id') = Unit
Spares id (Call.revalidates bound probed now id') = Unit

pub run-IsWellFormed :
    (host : Host) (call : Call) (reg : SystemRegistry)
    → IsWellFormed host reg
    → IsWellFormed host (run host call reg)
unfolding run
run-IsWellFormed host (Call.registers disks now candidate id label) reg agree =
    register-IsWellFormed host disks now candidate id label reg agree
run-IsWellFormed host (Call.rebinds disks now id candidate) reg agree =
    rebind-IsWellFormed host disks now id candidate reg agree
run-IsWellFormed host (Call.unregisters id) reg agree = unregister-IsWellFormed host id reg agree
run-IsWellFormed host (Call.resolves disk now id) reg agree =
    resolve_root-IsWellFormed host disk now id reg agree
run-IsWellFormed host (Call.revalidates bound probed now id) reg agree =
    revalidate-IsWellFormed host bound probed now id reg agree

-- From a well-formed registry, every history of calls leads to a well-formed registry: ids and
-- roots point at each other, and no approved root lies within the root of another system, as
-- `is_within` tells it, for which a nested root with a name that starts with `..` lies outside.
pub run_all-IsWellFormed :
    (host : Host) (calls : List Call) (reg : SystemRegistry)
    → IsWellFormed host reg
    → IsWellFormed host (run_all host calls reg)
unfolding run_all
run_all-IsWellFormed host [] reg agree = agree
run_all-IsWellFormed host (call ∷ calls) reg agree =
    run_all-IsWellFormed host calls (run host call reg) (run-IsWellFormed host call reg agree)
