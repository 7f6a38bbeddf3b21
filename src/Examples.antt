-- ===== src/Examples.antt =====
-- The values that the examples share: two VMs and a version library.
mod Registry
mod Shutdown
mod Lifecycle
mod Images
mod Download
mod Session
mod Startup
mod Loading
mod Client
mod Http
mod Dns
mod Storage
mod System
mod Archive
mod Coreos
mod Payload
mod Services
mod Bootstrap
mod Cli
mod Nfs
mod Commands
use corectl.Base.{ℕ, Text, codes, [], some, List, ◌≡◌, refl, sym, Option, Bool, true, false}
use corectl.Coreos.{Semver}
use corectl.Daemon.{Daemon}
use corectl.Daemon
use corectl.Registry.{Active}
use corectl.Vm
use corectl.Vm.{Vm}

abbrev pub core1 : Vm
core1 = record (Vm.new) { name = codes "core1"; uuid = codes "A1"; creation_time = 10 }

abbrev pub core2 : Vm
core2 = record (Vm.new) { name = codes "core2"; uuid = codes "A2"; creation_time = 20 }

-- A VM with the name of `core1` and another UUID.
abbrev pub twin : Vm
twin = record (Vm.new) { name = codes "core1"; uuid = codes "A3"; creation_time = 30 }

pub string-make_plain : (t v : Text) → some t ≡ some v → v ≡ t
string-make_plain t v e = cc

-- Every text is a version.
abbrev pub plain : Semver
plain = record {
  Version = Text;
  make = some;
  string = λ v. v;
  zero = codes "0.0.0";
  sort = λ vs. vs;
  make-string = λ v. refl;
  string-make = string-make_plain;
}
