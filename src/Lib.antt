-- ===== src/Lib.antt =====
-- corectl: a tool that runs CoreOS virtual machines on macOS. `corectld` is a server that keeps the
-- VMs that run; `corectl` is its client.
--
-- The server keeps a map of running VMs (components/server/run.go) that the RPC services
-- (components/server/rpcservices.go) and the HTTP requests of the VMs themselves
-- (components/server/httpservices.go) read and change. To start a VM, the client validates its
-- volumes and its cloud-config, pulls an image, and asks for `Run`; the server registers the VM and
-- launches a hypervisor, and the VM calls back with its address. Stopping sends signals to the
-- hypervisors; each VM's goroutine takes it out of the map once its process has ended.
--
-- Each file models the code that its first lines name:
--   Base         lists, texts, maps and results over native numbers
--   Vm, Daemon   `VMInfo` and `ServerContext`
--   Registry     `register`, `lookup`, `deregister`; Registry/Race runs two calls step by step;
--                Registry/Spec is the abstract registry
--   Lifecycle    the goroutines and the select statements of `RPCservice.Run`; Lifecycle/Entry is
--                what comes before them; Lifecycle/Shared is two clients with the same
--                volumes, Lifecycle/Stuck a `Stop` after a `Run` that failed
--   Shutdown     `Stop`, `StopVMs` and the graceful shutdown of a list of VMs
--   Coreos       `Channel`, `Version`, `LatestUpstream`
--   Images       `localImages` and `RemoveImage`; Images/Fetch is `PullImage`
--   Digests      the expression of `downloadAndVerify` and the hash that it looks up
--   Download     `downloadAndVerify` and `localize`
--   Http         access control and the handlers of the VMs' requests
--   Dns          the records of the name server, over an etcd client
--   NameServer   `NewDNSServer`, `PortForward`, `DNSServer.Start` and `Stop`, `until`
--   Etcd         `NewEtcd`, `EtcdServer.Start` and `Stop`, `createListeners`
--   Startup      `Start` of components/server/server.go with its deferred calls
--   Session      the network and the directories of components/host/session/session.go
--   Qcow2        `ValidateQcow2`
--   Storage      `ValidateCDROM`, `ValidateVolumes`, `ValidateCloudConfig`
--   Payload      `assembleBootPayload` and the hypervisor's arguments in `Run`; Payload/Files is a
--                VM's directory, its keys and its print
--   Services     the other RPC services and their guard
--   Bootstrap    `vmBootstrap` and `runCommand` of cmd/run.go
--   Nfs          `nfsSetup`
--   Cli          the tests of cmd/main.go, and `kill` and `panic`; Cli/Entry is `main`, the session
--                that it makes, and what happens before a command
--   Commands     the look-up of VMs in cmd/ssh.go and cmd/ps.go, `rm` and `pull`
--   Queries      `ps`, `query` and `list`
--   Loading      `loadCommand` of cmd/load.go
--   Connector    the SSH sessions, `ssh` and `put`
--   Leases       `GuestIPfromMAC` and `GuestMACfromUUID`
--   Client       `RPCQuery` and `Running`, and the commands of cmd/server.go and cmd/version.go
--   System       the server as a whole: the handlers, the goroutines, the signal handler and
--                `Start` as steps on the shared state; System/Book has what is seen of it
--                from outside, a book of UUIDs and names
--   Archive      `Copy`, `WriteToFile` and `WriteDir` of components/host/darwin/misc/image
--   Release      the description of a build, and the files that are built in
--   Examples     the theorems at concrete inputs, and tests
--
-- How the code is modelled. A text is the list of its bytes. A Go map is an association list;
-- what depends on the order of iteration is stated for the order of the list. A call that can
-- panic or wait for ever gives an `Outcome`. A `sync.Once` is whether it has run, and a channel
-- of capacity 1 is its buffer and whether it is closed. Loops run over lists; the one of
-- `UUIDtoMACaddr` runs on its three rounds, and a number n is printed with fuel n + 1, where
-- Payload/Decimal shows that more fuel makes no difference; the search for digests has as fuel the
-- length of the text, and each round takes at least one character. The file system, the network,
-- processes, etcd, OpenPGP, SHA-512, SSH and semantic versions come from outside the program: they
-- are records of operations or answers, with laws where the code relies on them. `Start` is one
-- run over the answers to it: what reaches `Oops` first, if anything does, the state once every job is
-- done, and what has become of the API's server are among them; `Close` of the manners library waits
-- until that server serves. In System a step is a whole handler or one step of a goroutine; a handler
-- that panics with the server's lock keeps it, and what asks for the lock then waits. The parts of a
-- handler that can overlap are looked at in Registry/Race (`register`) and Lifecycle (`Run`, and the
-- VM's requests, which may be handled late). The records in etcd, which the ignition request and
-- `deregister` change, are no part of the state of System; they are in Dns and Http/Ignition. A deferred call is a function of how the body ended. Directories that the code removes
-- are taken to be removable. The parents that `MkdirAll` makes on the way are no entries of the disk.
--
-- Not modelled: logging and the layout of most terminal output, the parsing of flags, the vmnet
-- bindings, the generated file system (components/common/assets/assets_vfsdata.go), the command that
-- writes manual pages (cmd/docs.go), and the inner workings of the libraries.
pub mod Base
pub mod Vm
pub mod Daemon
pub mod Registry
pub mod Shutdown
pub mod Coreos
pub mod Images
pub mod Http
pub mod Lifecycle
pub mod Dns
pub mod Qcow2
pub mod Storage
pub mod Payload
pub mod Services
pub mod Bootstrap
pub mod Cli
pub mod Nfs
pub mod Commands
pub mod Digests
pub mod Download
pub mod Session
pub mod Etcd
pub mod NameServer
pub mod Startup
pub mod Loading
pub mod Queries
pub mod Connector
pub mod Leases
pub mod Client
pub mod System
pub mod Archive
pub mod Release
mod Examples
