-- ===== src/Lib.antt =====
-- A verification of vessel, the sandbox runtime for agents: its daemon's sandbox manager and HTTP
-- APIs, the containerd shim, the Cloud Hypervisor driver and the guest agent.
--
-- The program. A daemon (cmd/vessel) or a shim (cmd/containerd-shim-vessel-v1) owns one
-- `sandbox.Manager`, in which drivers are registered by name. The manager creates, restores, forks,
-- snapshots and deletes sandboxes through the interfaces `Driver`, `Restorer` and `Instance`, and
-- keeps the live ones in a map. Three front ends call it: the native REST API, the E2B control
-- plane and the containerd task service. The production driver runs a microVM per sandbox, taken
-- from a pool of prewarmed processes, and talks to an agent inside the guest over a framed JSON
-- protocol.
--
-- The files.
--   Sandbox, Sandbox.Manager, Sandbox.Id: pkg/sandbox/sandbox.go. `W` is the state of whatever the
--     backends act on; a method is a function on it, and a panic is a result of its own, since it
--     unwinds its goroutine. A method of the manager runs its sections under the lock and its driver
--     calls in the source's order. Sandbox.Fake: pkg/sandbox/testutil.go, the in-memory driver,
--     which fills the driver interface and runs the examples.
--   Api: pkg/api/server.go, and E2b: pkg/e2b/e2b.go, over the manager. A request carries its decoded
--     JSON body, an aborted response is `none`.
--   Shim: pkg/shim/service.go, exec.go, events.go and templates.go. Tasks and execs are cells of a
--     heap (Heap), since goroutines share them; a channel is a number, and closing it wakes its
--     waiters. Shim.Sections cuts the methods at their locks, and a run is any list of sections, so
--     the theorems on runs hold for every interleaving of the goroutines.
--   Shim.Config: pkg/shim/config.go and templates.go, the node's configuration.
--   Shim.Bootstrap: pkg/shim/bootstrap.go, over files, processes and signals; Shim.Contract is the
--     life of a task as containerd sees it, as an automaton.
--   Shim.Running: RunDaemon, NewServiceFromConfig and Serve. Command.ContainerdShim:
--     cmd/containerd-shim-vessel-v1/main.go, which calls them.
--   CloudHypervisor.Pool: pkg/driver/cloudhypervisor/pool.go. A system is the pool with its refill
--     goroutines, each at a point of its loop, and the place of every VMM; a run is any list of
--     moves. CloudHypervisor.Client and CloudHypervisor.Driver: client.go, driver.go and
--     netguest.go of the same directory; the record `Host` is what the driver acts through:
--     cloud-hypervisor's answers, the pool, files, images and the pod's network.
--   Agent: pkg/agent, its protocol, server, network plan and client.
--   Vmnet: pkg/vmnet/vmnet.go, the pod's network identity and the TAP, over a namespace in which
--     commands run.
--     Vmnet.TapFd: tapfd_linux.go beside it. OpenFds: a process's descriptors, for the system calls.
--   CloudHypervisor.Clone: prepareCloneSnapshot, over directories as tables by name.
--     CloudHypervisor.Spawn: spawnPrefixed of pool.go, with the processes that run as a list.
--     CloudHypervisor.Transport: hvsock.go and restore_fds.go, over what the peer answers.
--   Image: pkg/image/image.go. Vsock: pkg/vsock/vsock_linux.go, over the kernel's answers.
--   Bootstrap and Bootstrap.Rootfs: pkg/bootstrap, over a table of files and the network's answers.
--   ProcessDriver: pkg/driver/process, an implementation of the driver interface.
--   Command: cmd/vessel/main.go, where the manager, the drivers and the two HTTP interfaces meet.
--   Files is package os on regular files, with the calls that fail as a record.
--   Dict is Go's map; FilePath is Clean, Join and Dir of path/filepath; Prelude has the shared
--   names, lists, integers and decimal and hexadecimal text.
--
-- Bounds and fuel. waitReady recurses on the number of polls that its deadline allows, which is a
-- field of `Host`: it is no fuel, since running out of polls is what the source does. Itoa has fuel
-- one above its number and divides by ten. Vsock's Accept has as fuel the rounds that it may take,
-- since the kernel may interrupt without end. All other loops recurse on a list. The client's request
-- counter wraps at 2 ^ 64, and the pid of a kill is cut to 32 bits; vCPU counts, memory sizes and
-- timeouts are integers without a bound.
--
-- Not modelled: the ttrpc and JSON encodings (handlers take decoded values); sockets beyond the
-- messages and answers of the files above; a context that is cancelled inside a call; the text of
-- wrapped errors beyond their beginning; the order in which Go visits a map, on which no result
-- depends; the composition of the driver with the start of a VMM, the passing of descriptors,
-- prepareCloneSnapshot and pkg/image, which it calls through `Host` and which are modelled by
-- themselves; the resolution of a path through links, an argument where a tarball is extracted;
-- what a program printed before its Exec failed; flags and messages of the commands.
pub mod Agent
pub mod Api
pub mod Bootstrap
pub mod CloudHypervisor
pub mod Command
pub mod Dict
pub mod E2b
pub mod FilePath
pub mod Files
pub mod Heap
pub mod Image
pub mod OpenFds
pub mod Prelude
pub mod ProcessDriver
pub mod Sandbox
pub mod Shim
pub mod Vmnet
pub mod Vsock
