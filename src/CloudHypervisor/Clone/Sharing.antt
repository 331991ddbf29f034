-- ===== src/CloudHypervisor/Clone/Sharing.antt =====
-- pkg/driver/cloudhypervisor/driver.go: what a clone sees of its template.
use vessel.Prelude.{
  String, ◌≡◌, refl, ap, ◌∙◌, sym, subst, some_eq, Option-cases, true, false, Option, none, some,
  [], ◌∷◌, arith, str_eq, eq_iff, eq_refl, if◌then◌else◌, Bool-cases, inl, inr,
}
use vessel.Dict
use vessel.Dict.{Dict, Rows, HasDistinctKeys, IsMap, get-put, seek, Absent}
use vessel.CloudHypervisor.Clone.{
  Entry, subdirectory, file, Field, object, value, Host, set_socket, take_file, take_entry,
  take_all, read_config, rewrite_config, write_config, prepare_clone_snapshot,
}

-- what the overlay has under a name after the entries were taken
abbrev pub seen : Option Entry → Option String → Option String
seen none old = old
seen (some subdirectory) old = old
seen (some (file text)) old = some text

take_file-get :
    (h : Host) (name text other : String) (overlay : Dict String)
    → (take_file h name text overlay).1 ≡ true
    → Dict.get (take_file h name text overlay).0 other
      ≡ (if str_eq name other then some text else Dict.get overlay other)
unfolding take_file
take_file-get h name text other overlay done = ground (arith, done, get-put overlay name other text)

take_entry-get :
    (h : Host) (name other : String) (e : Entry) (overlay : Dict String)
    → str_eq other "config.json" ≡ false
    → (take_entry h name e overlay).1 ≡ true
    → Dict.get (take_entry h name e overlay).0 other ≡ (
        if str_eq name other
        then seen (some e) (Dict.get overlay other)
        else Dict.get overlay other)
unfolding take_entry
take_entry-get h name other subdirectory overlay plain done = ground arith
take_entry-get h name other (file text) overlay plain done =
    elim (Bool-cases (str_eq name "config.json")) [
      | inl config ↦
          rw (config, take_entry)
            (ground (
              arith,
              config,
              plain,
              eq_iff name "config.json",
              eq_iff name other,
              eq_iff other "config.json",
            ))
      | inr plain_name ↦
          rw (plain_name, take_entry)
            (take_file-get h name text other overlay (rw (plain_name, take_entry) at done))
    ]

Absent-seek :
    {V : Type 0} (name other : String) (rows : Rows V)
    → name ≡ other
    → Absent name rows
    → seek other rows ≡ none
Absent-seek name other rows same h = ap (λ k. seek k rows) (sym same) ∙ ground (arith, h)

-- one entry, then the others, which do not have its name
seen-step :
    (name other : String) (e : Entry) (rows : Rows Entry) (overlay next : Dict String)
    → Absent name rows
    → Dict.get next other ≡ (
        if str_eq name other
        then seen (some e) (Dict.get overlay other)
        else Dict.get overlay other)
    → seen (seek other rows) (Dict.get next other)
      ≡ seen (if str_eq name other then some e else seek other rows) (Dict.get overlay other)
seen-step name other e rows overlay next absent taken = elim (Bool-cases (str_eq name other)) [
  | inl same ↦
      let equal : name ≡ other = ground (arith, eq_iff name other, same) in
      rw (same, Absent-seek name other rows equal absent) (rw same at taken)
  | inr different ↦ rw different (ap (λ o. seen (seek other rows) o) (rw different at taken))
]

take_all-get :
    (h : Host) (rows : Rows Entry) (other : String) (overlay : Dict String)
    → HasDistinctKeys rows
    → str_eq other "config.json" ≡ false
    → (take_all h rows overlay).1 ≡ true
    → Dict.get (take_all h rows overlay).0 other ≡ seen (seek other rows) (Dict.get overlay other)
unfolding take_all seek
take_all-get h [] other overlay distinct plain done = refl
take_all-get h ((name, e) ∷ rows) other overlay distinct plain done =
    let next = take_entry h name e overlay in
    elim (Bool-cases next.1) [
      | inr stopped ↦ absurd (ground (arith, rw (stopped, take_all) at done))
      | inl taken ↦
          rw (taken, take_all)
            (take_all-get h rows other next.0 distinct.1 plain (rw (taken, take_all) at done)
              ∙ seen-step name other e rows overlay next.0 distinct.0
                  (take_entry-get h name other e overlay plain taken))
    ]

-- the configuration takes no other name
write_config-get :
    (h : Host) (config : Option String) (other : String) (overlay : Dict String)
    → str_eq other "config.json" ≡ false
    → Dict.get (write_config h config overlay).0 other ≡ Dict.get overlay other
unfolding write_config
write_config-get h none other overlay plain = refl
write_config-get h (some text) other overlay plain = ground (
  arith,
  get-put overlay "config.json" other text,
  plain,
  eq_iff "config.json" other,
  eq_iff other "config.json",
)

write_config-text :
    (h : Host) (config : Option String) (overlay : Dict String)
    → (write_config h config overlay).1 ≡ true
    → Dict.get (write_config h config overlay).0 "config.json" ≡ config
unfolding write_config
write_config-text h none overlay done = absurd (ground (arith, done))
write_config-text h (some text) overlay done =
    ground (arith, done, get-put overlay "config.json" "config.json" text, eq_refl "config.json")

-- the vsock device of the configuration, before and after: an object keeps its fields but "socket",
-- which is the clone's path, and anything else stays
abbrev pub HasSocket : String → Option Field → Option Field → Type 0
HasSocket path none after = after ≡ none
HasSocket path (some (value text)) after = after ≡ some (value text)
HasSocket path (some (object vs)) after =
    (ws : Dict String) × (after ≡ some (object ws))
    × (Dict.get ws "socket" ≡ some path)
    × ((key : String) → str_eq key "socket" ≡ false → Dict.get ws key ≡ Dict.get vs key)

-- the template's configuration is decoded, and what is encoded for the clone has its fields but the
-- vsock device's socket
abbrev pub Rewrites : Host → String → Dict Entry → Option String → Type 0
Rewrites h path template config =
    (text : String) × (cfg : Dict Field) × (new : Dict Field) × (Dict.get template "config.json"
      ≡ some (file text))
    × (h.decode text ≡ some cfg)
    × (h.encode new ≡ config)
    × HasSocket path (Dict.get cfg "vsock") (Dict.get new "vsock")
    × ((key : String) → str_eq key "vsock" ≡ false → Dict.get new key ≡ Dict.get cfg key)

put-others :
    {V : Type 0} (m : Dict V) (key other : String) (v : V)
    → str_eq other key ≡ false
    → Dict.get (Dict.put m key v) other ≡ Dict.get m other
put-others m key other v different =
    ground (arith, get-put m key other v, different, eq_iff key other, eq_iff other key)

put-same :
    {V : Type 0} (m : Dict V) (key : String) (v : V) → Dict.get (Dict.put m key v) key ≡ some v
put-same m key v = ground (arith, get-put m key key v, eq_refl key)

set_socket-HasSocket :
    (path : String) (cfg : Dict Field)
    → HasSocket path (Dict.get cfg "vsock") (Dict.get (set_socket path cfg) "vsock")
unfolding set_socket
set_socket-HasSocket path cfg = elim (Option-cases (Dict.get cfg "vsock")) [
  | inl absent ↦ rw (absent, set_socket) absent
  | inr (value text, kept) ↦ rw (kept, set_socket) kept
  | inr (object vs, found) ↦
      rw (found, set_socket)
        (
          Dict.put vs "socket" path,
          put-same cfg "vsock" (object (Dict.put vs "socket" path)),
          put-same vs "socket" path,
          λ key other. put-others vs "socket" key path other,
        )
]

set_socket-others :
    (path : String) (cfg : Dict Field) (key : String)
    → str_eq key "vsock" ≡ false
    → Dict.get (set_socket path cfg) key ≡ Dict.get cfg key
unfolding set_socket
set_socket-others path cfg key other = elim (Option-cases (Dict.get cfg "vsock")) [
  | inl absent ↦ rw (absent, set_socket) refl
  | inr (value text, kept) ↦ rw (kept, set_socket) refl
  | inr (object vs, found) ↦
      rw (found, set_socket) (put-others cfg "vsock" key (object (Dict.put vs "socket" path)) other)
]

read_config-file :
    (h : Host) (template : Dict Entry) (text : String)
    → read_config h template ≡ some text
    → Dict.get template "config.json" ≡ some (file text)
unfolding read_config
read_config-file h template text e = elim (Option-cases (Dict.get template "config.json")) [
  | inl absent ↦ absurd (ground (arith, rw (absent, read_config) at e))
  | inr (subdirectory, found) ↦ absurd (ground (arith, rw (found, read_config) at e))
  | inr (file other, found) ↦ elim (Bool-cases (h.readable "config.json")) [
    | inl readable ↦
        found ∙ ap (λ x. some (file x)) (some_eq (rw (found, readable, read_config) at e))
    | inr denied ↦ absurd (ground (arith, rw (found, denied, read_config) at e))
  ]
]

rewrite_config-Rewrites :
    (h : Host) (template : Dict Entry) (path out : String)
    → rewrite_config h path (read_config h template) ≡ some out
    → Rewrites h path template (some out)
unfolding rewrite_config
rewrite_config-Rewrites h template path out e = elim (Option-cases (read_config h template)) [
  | inl missing ↦ absurd (ground (arith, rw (missing, rewrite_config) at e))
  | inr (text, read) ↦ elim (Option-cases (h.decode text)) [
    | inl malformed ↦ absurd (ground (arith, rw (read, malformed, rewrite_config) at e))
    | inr (cfg, decoded) ↦ (
      text,
      cfg,
      set_socket path cfg,
      read_config-file h template text read,
      decoded,
      rw (read, decoded, rewrite_config) at e,
      set_socket-HasSocket path cfg,
      set_socket-others path cfg,
    )
  ]
]

write_config-some :
    (h : Host) (config : Option String) (overlay : Dict String)
    → (write_config h config overlay).1 ≡ true
    → (out : String) × (config ≡ some out)
unfolding write_config
write_config-some h none overlay done = absurd (ground (arith, done))
write_config-some h (some out) overlay done = (out, refl)

write_config-Rewrites :
    (h : Host) (template : Dict Entry) (path : String) (overlay : Dict String)
    → let written = write_config h (rewrite_config h path (read_config h template)) overlay in
      written.1 ≡ true → Rewrites h path template (Dict.get written.0 "config.json")
write_config-Rewrites h template path overlay done =
    let config = rewrite_config h path (read_config h template) in
    let (out, e) = write_config-some h config overlay done in
    subst (λ c. Rewrites h path template c) (sym (write_config-text h config overlay done ∙ e))
      (rewrite_config-Rewrites h template path out e)

-- Where prepareCloneSnapshot succeeds, the clone has every regular file of the template's directory
-- but config.json under its name, with its text, whether it was linked or copied, and beside these
-- what was in the overlay. Its config.json is encoded from the template's with the clone's path as the
-- socket of the vsock device, where that is an object, and every other field as it was. The names
-- of a directory differ.
pub prepare_clone_snapshot-shares :
    (h : Host) (template : Dict Entry) (path : String) (overlay : Dict String)
    → IsMap template
    → (prepare_clone_snapshot h template path overlay).1 ≡ true
    → let after = (prepare_clone_snapshot h template path overlay).0 in
      Rewrites h path template (Dict.get after "config.json")
      × ((name : String)
          → str_eq name "config.json" ≡ false
          → Dict.get after name ≡ seen (Dict.get template name) (Dict.get overlay name))
unfolding prepare_clone_snapshot Dict.get seek
prepare_clone_snapshot-shares h template path overlay distinct done =
    let rows = template.rows_of in
    let taken = take_all h rows overlay in
    let config = rewrite_config h path (read_config h template) in
    elim (Bool-cases h.mkdir_fails) [
      | inl fails ↦ absurd (ground (arith, rw (fails, prepare_clone_snapshot) at done))
      | inr made ↦ elim (Bool-cases taken.1) [
        | inr stopped ↦ absurd (ground (arith, rw (made, stopped, prepare_clone_snapshot) at done))
        | inl all ↦
            rw (made, all, prepare_clone_snapshot)
              (
                write_config-Rewrites h template path taken.0
                    (rw (made, all, prepare_clone_snapshot) at done),
                λ name plain.
                    write_config-get h config name taken.0 plain
                    ∙ take_all-get h rows name overlay distinct.distinct plain all,
              )
      ]
    ]
