-- ===== src/CloudHypervisor/Client.antt =====
-- pkg/driver/cloudhypervisor/client.go: the REST API of one cloud-hypervisor process. `http` is
-- the process's answer to a request on its socket.
use Prim.Native.String.{◌++◌ as append}
use vessel.Prelude.{ℕ, ltb, String, Bool, Option, none, some, List, if◌then◌else◌, ◌||◌}
use vessel.Prelude.Int.{ℤ}

pub record CpusConfig : Type 0 where
  pub boot_vcpus : ℤ
  pub max_vcpus : ℤ

pub record MemoryConfig : Type 0 where
  pub size : ℤ
  pub shared : Bool

pub record PayloadConfig : Type 0 where
  pub kernel : String
  pub cmdline : String

pub record DiskConfig : Type 0 where
  pub path : String
  pub readonly : Bool

pub record NetDevice : Type 0 where
  pub tap : String
  pub mac : String
  pub num_fds : ℕ
  pub id : String

pub record VsockConfig : Type 0 where
  pub cid : ℕ
  pub socket : String

pub record ConsoleCfg : Type 0 where
  pub mode : String
  pub file : String

pub record VmConfig : Type 0 where
  pub cpus : CpusConfig
  pub memory : MemoryConfig
  pub payload : PayloadConfig
  pub disks : List DiskConfig
  pub net : List NetDevice
  pub vsock : Option VsockConfig
  pub serial : Option ConsoleCfg
  pub console : Option ConsoleCfg

-- net_fds is never set
pub record RestoreConfig : Type 0 where
  pub source_url : String
  pub memory_restore_mode : String
  pub resume : Bool

-- The calls of the client, each with its body.
pub data Call : Type 0 where
  vmm_ping vm_boot vm_pause vm_resume vm_shutdown vmm_shutdown : Call
  vm_create : VmConfig → Call
  vm_snapshot : String → Call
  vm_restore : RestoreConfig → Call

-- what http.Client.Do yields: an error's text, or a status with a body
pub data Reply : Type 0 where
  unreachable : String → Reply
  answered : ℕ → String → Reply

-- an error is `some`, of the text of the transport's error or of the body
unfoldable pub check_reply : Reply → Option String
check_reply (unreachable e) = some e
check_reply (answered status body) =
    if ltb status 200 || ltb 299 status then some (append "HTTP: " body) else none

unfoldable pub call :
    {H : Type 0} → (String → Call → H → H × Reply) → String → Call → H → H × Option String
unfolding check_reply
call http id c h = let (h', r) = http id c h in (h', check_reply r)
