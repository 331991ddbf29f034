-- ===== src/CloudHypervisor/Driver/Exec/Scenarios.antt =====
-- A command in a guest that prints what it is told, with stdout alone taken.
use vessel.Prelude.{ℕ, ◌+◌, ◌≡◌, refl, arith, none, some, [], ◌∷◌, true, false}
use vessel.Prelude.Int.{pos}
use vessel.Sandbox.{State}
use vessel.Agent.{Guest, unreadable}
use vessel.Agent.Net.{exited}
use vessel.Agent.Client.{served_by}
use vessel.CloudHypervisor.Client.{answered}
use vessel.CloudHypervisor.Driver.{Host, Machine, got, missed}
use vessel.CloudHypervisor.Driver.Exec.{exec, exec-runs, executed}

-- the guest counts the programs that ran
abbrev guest : Guest ℕ
guest = record {
  run = λ cmd env n. (n + 1, record { ending = exited (pos 3); stdout = 7 ∷ []; stderr = 8 ∷ [] });
  report = λ cmd r. "";
  mkdir_all = λ path n. (n, none);
  write_file = λ path bytes mode n. (n, none);
  read_file = λ path n. unreadable "no such file";
}

abbrev host : Host ℕ
host = record {
  http = λ id c h. (h, answered 204 "");
  await_exit = λ id h. (h, true);
  kill_process = λ id h. h;
  kill = λ v h. h;
  pool_get = λ h. (h, missed "empty");
  spawn_in_netns = λ netns h. (h, missed "no nsenter");
  is_dir = λ path h. false;
  pack_dir = λ dir image h. (h, missed "no tool");
  clear_dir = λ path h. (h, none);
  clone_snapshot = λ path v h. (h, got path);
  read_config = λ netns h. (h, missed "no pod");
  setup_tap = λ netns tap h. (h, none);
  teardown_tap = λ netns tap h. h;
  add_net = λ id nic h. (h, none);
  dial = λ path h. (h, none);
  deliver = λ id req h. served_by guest req h;
  polls = 2;
}

abbrev machine : Machine ℕ
machine = record {
  vm = record {
    id = "0a0b";
    dir = "/run/0a0b";
    vsock = "/run/0a0b/vsock.sock";
    agent = some 4;
    state = State.running;
    netns = "";
    net_cfg = none;
  };
  host = 0;
}

exec-runs_example :
    let (after, told) = exec host ("ls" ∷ []) true false machine in
    (after.host ≡ 1) × (told ≡ executed (pos 3) (7 ∷ []) [])
exec-runs_example =
    exec-runs guest host machine 4 "ls" [] true false refl refl (λ e h. absurd (ground (arith, h)))
