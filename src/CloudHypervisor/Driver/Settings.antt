-- ===== src/CloudHypervisor/Driver/Settings.antt =====
-- pkg/driver/cloudhypervisor/driver.go, `Config`, and tapName of netguest.go.
use vessel.Prelude.{
  ℕ, zero, suc, ◌+◌, ◌<◌, ◌≤◌, String, ◌≡◌, refl, false, str_eq, eq_iff, str_eq-ne, arith,
  if◌then◌else◌, ◌≢◌,
}
use vessel.Prelude.Int.{ℤ, pos, negsuc}
use vessel.FilePath.{join}

pub record Config : Type 0 where
  pub binary_path : String
  pub kernel_path : String
  pub rootfs_path : String
  pub state_dir : String
  pub cmdline : String
  pub boot_wait : ℤ
  pub pool_size : ℤ
  pub restore_mode : String

abbrev pub or_default : String → String → String
or_default value default = if str_eq value "" then default else value

abbrev pub or_wait : ℤ → ℤ
or_wait (pos zero) = pos 10000000000
or_wait wait = wait

-- durations in nanoseconds; os.TempDir() is a parameter
unfoldable pub with_defaults : String → Config → Config
with_defaults temp_dir c = record c {
  binary_path = or_default c.binary_path "cloud-hypervisor";
  state_dir = or_default c.state_dir (join temp_dir "vessel-ch");
  cmdline = or_default c.cmdline "console=ttyS0 console=ttyAMA0 root=/dev/vda ro init=/sbin/init";
  boot_wait = or_wait c.boot_wait;
  restore_mode = or_default c.restore_mode "OnDemand";
}

-- s[:n] of a longer string, and all of a shorter one
take_chars : ℕ → String → String
take_chars zero s = ""
take_chars (suc n) String.[] = ""
take_chars (suc n) (String.◌∷◌ c s) = String.◌∷◌ c (take_chars n s)

abbrev pub char_count : String → ℕ
char_count String.[] = 0
char_count (String.◌∷◌ c s) = 1 + char_count s

unfoldable pub tap_name : String → String
unfolding take_chars
tap_name id = String.◌∷◌ "v" (String.◌∷◌ "t" (String.◌∷◌ "a" (String.◌∷◌ "p" (take_chars 8 id))))

take_chars-count : (n : ℕ) (s : String) → char_count (take_chars n s) ≤ n
unfolding take_chars
take_chars-count zero s = ground arith
take_chars-count (suc n) String.[] = ground arith
take_chars-count (suc n) (String.◌∷◌ c s) = ground (arith, take_chars-count n s)

tap_count : (s : String) → char_count s ≤ 8 → 1 + (1 + (1 + (1 + char_count s))) < 16
tap_count s h = ground (arith, h)

-- The name of a TAP has at most 12 characters, so with its final NUL it fits in the 16 bytes of
-- IFNAMSIZ, whatever the sandbox's id.
pub tap_name-fits : (id : String) → char_count (tap_name id) < 16
unfolding tap_name
tap_name-fits id = tap_count (take_chars 8 id) (take_chars-count 8 id)

or_default-nonempty :
    (value default : String) → str_eq default "" ≡ false → or_default value default ≢ ""
or_default-nonempty value default h = ground (arith, h, eq_iff value "", eq_iff default "")

or_default-kept : (value default : String) → value ≢ "" → or_default value default ≡ value
or_default-kept value default h = ground (arith, h, eq_iff value "", eq_iff default "")

or_default-again :
    (value default : String)
    → str_eq default "" ≡ false
    → or_default (or_default value default) default ≡ or_default value default
or_default-again value default h =
    or_default-kept (or_default value default) default (or_default-nonempty value default h)

or_wait-again : (wait : ℤ) → or_wait (or_wait wait) ≡ or_wait wait
or_wait-again (pos zero) = refl
or_wait-again (pos (suc n)) = refl
or_wait-again (negsuc n) = refl

-- The defaults fill every field that was empty and leave the others: a second pass changes nothing,
-- and what the user set, and the kernel, root image and pool size, are as the user set them.
pub with_defaults-with_defaults :
    (temp_dir : String) (c : Config)
    → join temp_dir "vessel-ch" ≢ ""
    → (with_defaults temp_dir (with_defaults temp_dir c) ≡ with_defaults temp_dir c)
      × ((with_defaults temp_dir c).binary_path ≢ "")
      × ((with_defaults temp_dir c).state_dir ≢ "")
      × ((with_defaults temp_dir c).restore_mode ≢ "")
      × (c.restore_mode ≢ "" → (with_defaults temp_dir c).restore_mode ≡ c.restore_mode)
unfolding with_defaults
with_defaults-with_defaults temp_dir c h =
    let made = str_eq-ne (join temp_dir "vessel-ch") "" h in
    (
      rw
          (
            or_default-again c.binary_path "cloud-hypervisor" refl,
            or_default-again c.state_dir (join temp_dir "vessel-ch") made,
            or_default-again c.cmdline
                "console=ttyS0 console=ttyAMA0 root=/dev/vda ro init=/sbin/init" refl,
            or_wait-again c.boot_wait,
            or_default-again c.restore_mode "OnDemand" refl,
          )
          refl,
      or_default-nonempty c.binary_path "cloud-hypervisor" refl,
      or_default-nonempty c.state_dir (join temp_dir "vessel-ch") made,
      or_default-nonempty c.restore_mode "OnDemand" refl,
      or_default-kept c.restore_mode "OnDemand",
    )
