-- ===== src/Agent/Net/Order.antt =====
-- The commands of pkg/agent/net.go: what they are for a configuration, and that they run in order.
use vessel.Prelude.{
  ltb, ◌+◌, String, ◌≡◌, refl, ap, ◌↔◌, ◌≢◌, str_eq, eq_iff, eq_refl, ◌⊎◌, subst, arith, Option,
  none, some, List, [], ◌∷◌, ◌++◌, length, All, inl, inr, Bool, true, false, ◌||◌, sym, ◌∙◌,
  Bool-cases, if◌then◌else◌,
}
use vessel.Prelude.Int.{ℤ, pos_part}
use vessel.Agent.Net.{
  NetConfig, Ending, succeeded, exited, failed, Run, Exec, Plan, refused, commands, mtu_command,
  route_command, net_commands, run_commands, run_plan, configure_net,
}

Ending-cases :
    (e : Ending)
    → (e ≡ succeeded) ⊎ (((code : ℤ) × (e ≡ exited code)) ⊎ ((text : String) × (e ≡ failed text)))
Ending-cases succeeded = inl refl
Ending-cases (exited code) = inr (inl (code, refl))
Ending-cases (failed text) = inr (inr (text, refl))

module _ {G : Type 0} (run : Exec G) (report : List String → Run → String) where
  -- the commands run in order from one guest to another, and each succeeds
  pub data Runs : List (List String) → G → G → Type 0 where
    finished : {g : G} → Runs [] g g
    ran :
        {cmd : List String} {cmds : List (List String)} {g g' : G}
        → (run cmd [] g).1.ending ≡ succeeded
        → Runs cmds (run cmd [] g).0 g'
        → Runs (cmd ∷ cmds) g g'

  run_commands-Runs :
      (cmds : List (List String)) (g g' : G)
      → run_commands run report cmds g ≡ (g', none)
      → Runs cmds g g'
  unfolding run_commands
  run_commands-Runs [] g g' e = subst (λ x. Runs [] g x) (ap (λ x. x.0) e) finished
  run_commands-Runs (cmd ∷ cmds) g g' e =
      let r = (run cmd [] g).1 in
      elim (Ending-cases r.ending) [
        | inl n ↦ ran n (run_commands-Runs cmds (run cmd [] g).0 g' (rw (n, run_commands) at e))
        | inr (inl (code, n)) ↦ absurd (ground (arith, rw (n, run_commands) at e))
        | inr (inr (text, n)) ↦ absurd (ground (arith, rw (n, run_commands) at e))
      ]

  Runs-run_commands :
      {cmds : List (List String)} {g g' : G}
      → Runs cmds g g'
      → run_commands run report cmds g ≡ (g', none)
  unfolding run_commands
  Runs-run_commands finished = refl
  Runs-run_commands (ran ok rest) = rw (ok, run_commands) (Runs-run_commands rest)

  plan-Runs :
      (p : Plan) (g g' : G)
      → run_plan run report p g ≡ (g', none)
      → (cmds : List (List String)) × (p ≡ commands cmds) × Runs cmds g g'
  unfolding run_plan
  plan-Runs (refused text) g g' e = absurd (ground (arith, e))
  plan-Runs (commands cmds) g g' e = (cmds, refl, run_commands-Runs cmds g g' e)

  Runs-plan :
      (p : Plan) (g g' : G)
      → (cmds : List (List String)) × (p ≡ commands cmds) × Runs cmds g g'
      → run_plan run report p g ≡ (g', none)
  unfolding run_plan
  Runs-plan p g g' (cmds, e, ran_all) = rw e (Runs-run_commands ran_all)

  -- Configuring the network reports success exactly when the configuration is accepted and every
  -- one of its commands ran, in order, and exited with 0.
  pub configure_net-Runs :
      (c : Option NetConfig) (g g' : G)
      → (configure_net run report c g ≡ (g', none))
        ↔ ((cmds : List (List String)) × (net_commands c ≡ commands cmds) × Runs cmds g g')
  unfolding configure_net
  configure_net-Runs c g g' = (plan-Runs (net_commands c) g g', Runs-plan (net_commands c) g g')

abbrev pub mentions : String → List String → Bool
mentions text [] = false
mentions text (x ∷ xs) = str_eq x text || mentions text xs

mtu_command-mentions : (c : NetConfig) → All (λ cmd. mentions c.device cmd ≡ true) (mtu_command c)
unfolding mtu_command
mtu_command-mentions c = elim (Bool-cases (ltb 0 (pos_part c.mtu))) [
  | inl n ↦ rw (n, mtu_command) (ground (arith, eq_refl c.device), tt)
  | inr n ↦ rw (n, mtu_command) tt
]

route_command-mentions :
    (c : NetConfig) → All (λ cmd. mentions c.device cmd ≡ true) (route_command c)
unfolding route_command
route_command-mentions c = elim (Bool-cases (str_eq c.gateway "")) [
  | inl n ↦ rw (n, route_command) tt
  | inr n ↦ rw (n, route_command) (ground (arith, eq_refl c.device), tt)
]

All-append {ℓ κ} :
    {A : Type ℓ} (P : A → Type κ) (xs ys : List A) → All P xs → All P ys → All P (xs ++ ys)
All-append P [] ys h k = k
All-append P (x ∷ xs) ys h k = (h.0, All-append P xs ys h.1 k)

length-append {ℓ} : {A : Type ℓ} (xs ys : List A) → length (xs ++ ys) ≡ length xs + length ys
length-append [] ys = ground arith
length-append (x ∷ xs) ys = ground (arith, length-append xs ys)

-- the commands of a configuration that is accepted
abbrev planned : NetConfig → List (List String)
planned c =
    ("ip" ∷ "addr" ∷ "add" ∷ c.ip ∷ "dev" ∷ c.device ∷ [])
    ∷ ("ip" ∷ "link" ∷ "set" ∷ c.device ∷ "up" ∷ [])
    ∷ (mtu_command c ++ route_command c)

planned-mentions : (c : NetConfig) → All (λ cmd. mentions c.device cmd ≡ true) (planned c)
planned-mentions c = (
  ground (arith, eq_refl c.device),
  (
    ground (arith, eq_refl c.device),
    All-append (λ cmd. mentions c.device cmd ≡ true) (mtu_command c) (route_command c)
        (mtu_command-mentions c) (route_command-mentions c),
  ),
)

length-planned :
    (c : NetConfig)
    → length (planned c)
      ≡ 2 + (if ltb 0 (pos_part c.mtu) then 1 else 0) + (if str_eq c.gateway "" then 0 else 1)
unfolding mtu_command route_command
length-planned c = ground (arith, length-append (mtu_command c) (route_command c))

net_commands-planned :
    (c : NetConfig) (cmds : List (List String))
    → net_commands (some c) ≡ commands cmds
    → (c.device ≢ "") × (c.ip ≢ "") × (planned c ≡ cmds)
unfolding net_commands
net_commands-planned c cmds e = elim (Bool-cases (str_eq c.device "" || str_eq c.ip "")) [
  | inl n ↦ absurd (ground (arith, rw (n, net_commands) at e))
  | inr n ↦ (
    ground (arith, eq_iff c.device ""),
    ground (arith, eq_iff c.ip ""),
    ground (arith, rw (n, net_commands) at e),
  )
]

-- A configuration is accepted only when it names a device and an address; each command then
-- names that device, and there are two commands, one more for an MTU above 0 and one more for a
-- gateway.
pub net_commands_lem :
    (c : NetConfig) (cmds : List (List String))
    → net_commands (some c) ≡ commands cmds
    → (c.device ≢ "")
      × (c.ip ≢ "")
      × All (λ cmd. mentions c.device cmd ≡ true) cmds
      × (length cmds
          ≡ 2 + (if ltb 0 (pos_part c.mtu) then 1 else 0) + (if str_eq c.gateway "" then 0 else 1))
net_commands_lem c cmds e =
    let (device, ip, same) = net_commands-planned c cmds e in
    (
      device,
      ip,
      subst (All (λ cmd. mentions c.device cmd ≡ true)) same (planned-mentions c),
      ap length (sym same) ∙ length-planned c,
    )
