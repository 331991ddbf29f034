-- ===== src/Files.antt =====
-- What the program uses of package os on regular files: a table of texts by path, and which calls
-- fail. A write that fails may have created or cut the file, and leaves what it wrote so far.
use Prim.Native.String.{◌++◌ as append, count}
use text.Mathlib.TextLemmas.{length-append}
use vessel.Prelude.{
  String, ◌≡◌, ◌≢◌, refl, ap, ◌∙◌, inl, inr, Bool, true, false, Option, none, some, arith, str_eq,
  eq_refl, str_eq-ne, if◌then◌else◌, Bool-cases, is_none,
}
use vessel.Dict
use vessel.Dict.{Dict, get-put, get-remove}

pub data Fate : Type 0 where
  works refused : Fate
  breaks_after : String → Fate

pub record Faults : Type 0 where
  pub writing : String → Fate
  pub renaming : String → Bool
  pub removing : String → Bool

-- nothing fails
abbrev pub no_faults : Faults
no_faults = record { writing = λ _. works; renaming = λ _. false; removing = λ _. false }

-- os.WriteFile, with true for a nil error
write_as : Fate → String → String → Dict String → Dict String × Bool
write_as works path text files = (Dict.put files path text, true)
write_as refused path text files = (files, false)
write_as (breaks_after part) path text files = (Dict.put files path part, false)

unfoldable pub write_file : Faults → String → String → Dict String → Dict String × Bool
unfolding write_as
write_file faults path text files = write_as (faults.writing path) path text files

moved : String → String → Option String → Dict String → Dict String × Bool
moved old new none files = (files, false)
moved old new (some text) files = (Dict.put (Dict.remove files old) new text, true)

-- os.Rename
unfoldable pub rename : Faults → String → String → Dict String → Dict String × Bool
unfolding moved
rename faults old new files =
    if faults.renaming new then (files, false) else moved old new (Dict.get files old) files

-- os.Remove, whose error the callers drop
unfoldable pub remove : Faults → String → Dict String → Dict String
remove faults path files = if faults.removing path then files else Dict.remove files path

-- no text is the same with ".tmp" behind it
append-longer : (s : String) → append s ".tmp" ≢ s
append-longer s h = absurd (omega (arith, ap count h, length-append s ".tmp"))

pub tmp-differs : (s : String) → str_eq (append s ".tmp") s ≡ false
tmp-differs s = str_eq-ne (append s ".tmp") s (append-longer s)

-- what a write leaves at any path
get-write_as :
    (fate : Fate) (path text other : String) (files : Dict String)
    → str_eq path other ≡ false
    → Dict.get (write_as fate path text files).0 other ≡ Dict.get files other
unfolding write_as
get-write_as works path text other files h = ground (arith, get-put files path other text, h)
get-write_as refused path text other files h = refl
get-write_as (breaks_after part) path text other files h =
    ground (arith, get-put files path other part, h)

pub get-write_file :
    (faults : Faults) (path text other : String) (files : Dict String)
    → str_eq path other ≡ false
    → Dict.get (write_file faults path text files).0 other ≡ Dict.get files other
unfolding write_file
get-write_file faults path text other files h =
    get-write_as (faults.writing path) path text other files h

written_as :
    (fate : Fate) (path text : String) (files : Dict String)
    → (write_as fate path text files).1 ≡ true
    → (write_as fate path text files).0 ≡ Dict.put files path text
unfolding write_as
written_as works path text files h = refl
written_as refused path text files h = ground (arith, h)
written_as (breaks_after part) path text files h = ground (arith, h)

pub write_file-written :
    (faults : Faults) (path text : String) (files : Dict String)
    → (write_file faults path text files).1 ≡ true
    → (write_file faults path text files).0 ≡ Dict.put files path text
unfolding write_file
write_file-written faults path text files h = written_as (faults.writing path) path text files h

-- a rename to a path either fails, with no change, or puts the text that was at the other path
pub get-rename :
    (faults : Faults) (old new text : String) (files : Dict String)
    → Dict.get files old ≡ some text
    → let (after, done) = rename faults old new files in
      Dict.get after new ≡ (if done then some text else Dict.get files new)
unfolding rename moved
get-rename faults old new text files h = elim (Bool-cases (faults.renaming new)) [
  | inl fails ↦ rw (fails, rename) refl
  | inr renames ↦
      rw (renames, h, rename)
        (ground (arith, get-put (Dict.remove files old) new new text, eq_refl new))
]

-- a file stands at the path
abbrev pub Has : String → Dict String → Type 0
Has path files = is_none (Dict.get files path) ≡ false

moved-Has :
    (old new path : String) (text : Option String) (files : Dict String)
    → str_eq old path ≡ false
    → Has path files
    → Has path (moved old new text files).0
unfolding moved
moved-Has old new path none files other h = h
moved-Has old new path (some text) files other h =
    ground
      (arith, get-put (Dict.remove files old) new path text, get-remove files old path, other, h)

moved-Has_new :
    (old new : String) (text : Option String) (files : Dict String)
    → (moved old new text files).1 ≡ true
    → Has new (moved old new text files).0
unfolding moved
moved-Has_new old new none files h = absurd (ground (arith, h))
moved-Has_new old new (some text) files h =
    ground (arith, get-put (Dict.remove files old) new new text, eq_refl new)

pub rename-Has :
    (faults : Faults) (old new path : String) (files : Dict String)
    → str_eq old path ≡ false
    → Has path files
    → Has path (rename faults old new files).0
unfolding rename
rename-Has faults old new path files other h = elim (Bool-cases (faults.renaming new)) [
  | inl fails ↦ rw (fails, rename) h
  | inr renames ↦ rw (renames, rename) (moved-Has old new path (Dict.get files old) files other h)
]

pub rename-Has_new :
    (faults : Faults) (old new : String) (files : Dict String)
    → (rename faults old new files).1 ≡ true
    → Has new (rename faults old new files).0
unfolding rename
rename-Has_new faults old new files h = elim (Bool-cases (faults.renaming new)) [
  | inl fails ↦ absurd (ground (arith, rw (fails, rename) at h))
  | inr renames ↦
      rw (renames, rename)
        (moved-Has_new old new (Dict.get files old) files (rw (renames, rename) at h))
]

pub remove-Has :
    (faults : Faults) (gone path : String) (files : Dict String)
    → str_eq gone path ≡ false
    → Has path files
    → Has path (remove faults gone files)
unfolding remove
remove-Has faults gone path files other h = ground (arith, get-remove files gone path, other, h)

pub write_file-Has :
    (faults : Faults) (written text path : String) (files : Dict String)
    → str_eq written path ≡ false
    → Has path files
    → Has path (write_file faults written text files).0
write_file-Has faults written text path files other h =
    ap is_none (get-write_file faults written text path files other) ∙ h

moved-kept :
    (old new : String) (text : Option String) (files : Dict String)
    → (moved old new text files).1 ≡ false
    → (moved old new text files).0 ≡ files
unfolding moved
moved-kept old new none files h = refl
moved-kept old new (some text) files h = absurd (ground (arith, h))

-- a rename that fails changes nothing
pub rename-kept :
    (faults : Faults) (old new : String) (files : Dict String)
    → (rename faults old new files).1 ≡ false
    → Dict.get (rename faults old new files).0 new ≡ Dict.get files new
unfolding rename
rename-kept faults old new files h = elim (Bool-cases (faults.renaming new)) [
  | inl fails ↦ rw (fails, rename) refl
  | inr renames ↦
      rw (renames, rename)
        (ap (λ m. Dict.get m new)
          (moved-kept old new (Dict.get files old) files (rw (renames, rename) at h)))
]

pub remove-same :
    (faults : Faults) (gone path : String) (files : Dict String)
    → str_eq gone path ≡ false
    → Dict.get (remove faults gone files) path ≡ Dict.get files path
unfolding remove
remove-same faults gone path files other = ground (arith, get-remove files gone path, other)
