-- ===== src/Bootstrap/Rootfs/Tarball.antt =====
-- pkg/bootstrap/rootfs.go: where extractTarGz writes.
use text.Mathlib.Text.{starts_with}
use vessel.Prelude.{String, ◌≡◌, Option, none, some, List, [], ◌∷◌, str_eq, Bool, true, false}
use vessel.Dict
use vessel.Dict.{Dict}
use vessel.FilePath.{join, clean}
use vessel.FilePath.Clean.{Below}
use vessel.Bootstrap.Rootfs.{
  Kind, directory, regular, symlink, hardlink, special, Item, entry, corrupt, Entry, file, link_to,
  same_as, Tree, Refusals, extract_entry,
}

-- the entry at a path is as it was
abbrev Same : String → Tree → Tree × Bool → Type 0
Same path t (u, done) = Dict.get u.entries path ≡ Dict.get t.entries path

abbrev pub is_link : Option Entry → Bool
is_link none = false
is_link (some (file text)) = false
is_link (some (link_to to)) = true
is_link (some (same_as other)) = true

-- none of the directories that a path is below is a link
abbrev pub HasPlainParents : Dict Entry → String → Type 0
HasPlainParents m path =
    (q : String) → str_eq q path ≡ false → Below q path → is_link (Dict.get m q) ≡ false

-- What is relied on of the system: a path without a link on it is reached as it is written.
pub record FollowsLinks (r : Refusals) : Type 0 where
  pub opens :
      (m : Dict Entry) (path : String)
      → is_link (Dict.get m path) ≡ false
      → HasPlainParents m path
      → r.reaches m path ≡ path
  pub names_it : (m : Dict Entry) (path : String) → HasPlainParents m path → r.names m path ≡ path

-- a file is not written at or below a link that is there, and a link not made below one
abbrev pub Passes : Dict Entry → String → Kind → Type 0
Passes m target directory = Unit
Passes m target regular = (is_link (Dict.get m target) ≡ false) × HasPlainParents m target
Passes m target symlink = HasPlainParents m target
Passes m target hardlink = HasPlainParents m target
Passes m target special = Unit

-- no entry of the archive goes through a link that stands there when its turn comes
abbrev pub Avoids : Refusals → String → List Item → Tree → Type 0
Avoids r dst [] t = Unit
Avoids r dst (corrupt ∷ items) t = Unit
Avoids r dst (entry h ∷ items) t =
    (starts_with (clean h.name) ".." ≡ false → Passes t.entries (join dst (clean h.name)) h.kind)
    × Avoids r dst items (extract_entry r dst h t).0
