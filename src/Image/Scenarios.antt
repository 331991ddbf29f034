-- ===== src/Image/Scenarios.antt =====
-- pkg/image/image.go on concrete trees.
use vessel.Prelude.{
  ◌+◌, ◌*◌, ◌%◌, ◌^◌, ◌≤◌, ◌<◌, ◌≡◌, refl, some, none, [], ◌∷◌, arith, false, String,
}
use vessel.Prelude.Int.{pos}
use vessel.Dict
use vessel.Dict.{Dict}
use vessel.Files.{no_faults}
use vessel.Image.{Format, Options, Tools, Source, ext4_bytes, extra_or_default, pack_dir}
use vessel.Image.Sizes.{ext4_bytes-fits}
use vessel.Image.Replacing.{Replaced, pack_dir-Replaced}

abbrev tools : Tools
tools = record {
  source = Source.directory;
  has_erofs = false;
  mkdir_fails = false;
  walk = some (5000000 ∷ 60000000 ∷ []);
  mkfs_erofs = record { left = ""; succeeded = false };
  create_fails = false;
  mkfs_ext4 = λ n. record { left = "half"; succeeded = false };
  size = λ _. 4;
  faults = no_faults;
}

abbrev options : Options
options = record { format = Format.unset; extra_mib = pos 0 }

abbrev stored : Dict String
stored = Dict.put Dict.empty "/i/a.img" "old"

evaluated : Unit {0}
unfolding pack_dir ext4_bytes extra_or_default Dict.get Dict.put Dict.empty Dict.remove
evaluated = tt

size_example : ext4_bytes 65000000 (pos 0) ≡ 109 * 2 ^ 20
unfolding evaluated
size_example = refl

ext4_bytes-fits_example :
    (ext4_bytes 65000000 (pos 0) % 2 ^ 20 ≡ 0)
    × (32 * 2 ^ 20 ≤ ext4_bytes 65000000 (pos 0))
    × (ext4_bytes 65000000 (pos 0) < 2 ^ 63)
    × (65000000 + (32 + 15) * 2 ^ 20 ≤ ext4_bytes 65000000 (pos 0))
ext4_bytes-fits_example = ext4_bytes-fits 65000000 (pos 0) (omega arith) (omega arith)

-- mkfs.ext4 fails: the old image is kept, and half of a new one is left beside it
left_behind :
    let (files, result) = pack_dir tools "/i/a.img" options stored in
    (result ≡ none)
    × (Dict.get files "/i/a.img" ≡ some "old")
    × (Dict.get files "/i/a.img.tmp" ≡ some "half")
unfolding evaluated
left_behind = (refl, refl, refl)

pack_dir-Replaced_example :
    Replaced tools "/i/a.img" stored (pack_dir tools "/i/a.img" options stored)
pack_dir-Replaced_example = pack_dir-Replaced tools "/i/a.img" options stored
