-- ===== src/Bootstrap/Scenarios.antt =====
-- pkg/bootstrap on a concrete machine.
use Prim.Native.Char.{code}
use Prim.Native.String.append
use Prim.Native.String.{◌++◌ as append}
use vessel.Prelude.{ℕ, String, ◌≡◌, refl, Option, none, some, List, [], ◌∷◌, ◌++◌, true, false}
use vessel.Dict
use vessel.Files.{no_faults}
use vessel.FilePath.{path_of, clean_parts, is_rooted}
use vessel.Bootstrap.{Node, Host, Assets, got, response, unreachable, up}
use vessel.Bootstrap.Twice.{SameMachine}
use vessel.Bootstrap.Rootfs.{
  Header, Kind, Item, entry, Entry, empty_tree, Refusals, Builder, extract, build_rootfs,
}
use vessel.Bootstrap.Rootfs.Building.{up-build_rootfs}

-- the last part of a path, where it is a link, is followed once
abbrev followed : String → Option Entry → String
followed path none = path
followed path (some (Entry.file text)) = path
followed path (some (Entry.link_to to)) = to
followed path (some (Entry.same_as other)) = other

abbrev allowed : Refusals
allowed = record {
  reaches = λ m path. followed path (Dict.get m path);
  names = λ m path. path;
  mkdir = λ _. false;
  open_file = λ _. false;
  linking = λ _. false;
}

abbrev header : String → Kind → Header
header name kind = record {
  name = name;
  kind = kind;
  link_name = "";
  content = "x";
  is_whole = true;
}

abbrev archive : List Item
archive =
    entry (header "./bin/sh" Kind.regular)
    ∷ entry (header "a/../../etc/passwd" Kind.regular)
    ∷ entry (header "/etc/passwd" Kind.regular)
    ∷ entry (header "lib" Kind.symlink)
    ∷ []

abbrev linking_archive : List Item
linking_archive =
    entry (record (header "out" Kind.symlink) { link_name = "/etc/passwd" })
    ∷ entry (header "out" Kind.regular)
    ∷ []

abbrev machine : Host
machine = record {
  goos = "linux";
  goarch = "amd64";
  home = some "/root";
  mkdir_fails = false;
  kvm = true;
  web = λ _. response 200 "bytes" true;
  faults = no_faults;
}

abbrev offline : Host
offline = record machine { web = λ _. unreachable }

abbrev tools : Builder
tools = record {
  has_mkfs = true;
  self = some "elf";
  work = some "/tmp/vessel-rootfs-1";
  untar = λ _. some archive;
  refusals = allowed;
  refuses_init = false;
  refuses_truncate = false;
  mkfs = λ _. some "image";
}

abbrev no_tools : Builder
no_tools = record tools { has_mkfs = false }

abbrev blank : Node
blank = record { files = Dict.empty; fetched = [] }

abbrev assets : Assets
assets = record {
  dir = "/root/.vessel";
  ch_binary = "/root/.vessel/bin/cloud-hypervisor";
  kernel_path = "/root/.vessel/vmlinux";
  rootfs_path = "/root/.vessel/rootfs.img";
  kvm = true;
}

evaluated : Unit {0}
unfolding up build_rootfs extract Dict.get Dict.put Dict.remove Dict.empty clean_parts path_of
    is_rooted
evaluated = tt

first_run : (up machine (build_rootfs tools machine) blank).1 ≡ got assets
unfolding evaluated
first_run = refl

same_machine : SameMachine machine offline
same_machine = record {
  same_os = refl;
  same_arch = refl;
  same_home = refl;
  same_kvm = refl;
  makes_dir = refl;
}

up-build_rootfs_example :
    let after = (up machine (build_rootfs tools machine) blank).0 in
    up offline (build_rootfs no_tools offline) after ≡ (after, got assets)
up-build_rootfs_example =
    up-build_rootfs machine offline tools no_tools blank assets same_machine first_run

placed :
    let after = (extract allowed "/w" archive empty_tree).0.entries in
    (Dict.get after "/w/bin/sh" ≡ some (Entry.file "x"))
    × (Dict.get after "/w/etc/passwd" ≡ some (Entry.file "x"))
    × (Dict.get after "/etc/passwd" ≡ none)
unfolding evaluated
placed = (refl, refl, refl)

head_code : String → ℕ
head_code String.[] = 0
head_code (String.◌∷◌ c s) = code c

second_code : String → ℕ
second_code String.[] = 0
second_code (String.◌∷◌ c s) = head_code s

-- a link of the archive, and then a file of its name
escaped :
    Dict.get (extract allowed "/w" linking_archive empty_tree).0.entries "/etc/passwd"
    ≡ some (Entry.file "x")
unfolding evaluated
escaped = refl
