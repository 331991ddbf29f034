-- ===== src/FilePath.antt =====
-- What the program uses of Go's path/filepath on Unix: `Clean` and `Join`. A path is cut at its
-- slashes; `Clean` keeps a stack of the parts, on which ".." undoes the part before it.
pub mod Split
pub mod Clean
pub mod Ending
use Prim.Native.Char.{Char, code}
use Prim.Native.String.{◌++◌ as append}
use vessel.Prelude.{
  String, Bool, true, false, List, [], ◌∷◌, ◌==◌, str_eq, if◌then◌else◌, ◌≡◌, refl, ◌&&◌, ◌||◌, not,
}

-- the parts between slashes; the part that is being read is the first of the result
unfoldable pub glue : Bool → Char → List String → List String
glue true c parts = "" ∷ parts
glue false c [] = String.◌∷◌ c "" ∷ []
glue false c (p ∷ parts) = String.◌∷◌ c p ∷ parts

unfoldable pub split : String → List String
unfolding glue
split String.[] = "" ∷ []
split (String.◌∷◌ c s) = glue (code c == b'/') c (split s)

unfoldable pub is_rooted : String → Bool
is_rooted String.[] = false
is_rooted (String.◌∷◌ c s) = code c == b'/'

-- one more part on the stack, whose top is the last part so far
unfoldable pub push_part : Bool → String → List String → List String
push_part rooted p [] =
    if str_eq p "" || str_eq p "." || rooted && str_eq p ".." then [] else p ∷ []
push_part rooted p (top ∷ rest) =
    if str_eq p "" || str_eq p "."
    then top ∷ rest
    else if str_eq p ".." && not (str_eq top "..")
    then rest
    else p ∷ top ∷ rest

unfoldable pub resolve : Bool → List String → List String → List String
unfolding push_part
resolve rooted stack [] = stack
resolve rooted stack (p ∷ parts) = resolve rooted (push_part rooted p stack) parts

-- the stack, bottom first, with slashes between
unfoldable pub render : List String → String → String
render [] tail = tail
render (p ∷ stack) tail = render stack (if str_eq tail "" then p else append p (append "/" tail))

-- the parts of the cleaned path, last first
unfoldable pub clean_parts : String → List String
unfolding resolve split
clean_parts path = resolve (is_rooted path) [] (split path)

-- the path of a stack of parts
unfoldable pub path_of : Bool → List String → String
unfolding render
path_of rooted stack =
    let body = render stack "" in
    if rooted then append "/" body else if str_eq body "" then "." else body

-- filepath.Clean
unfoldable pub clean : String → String
unfolding clean_parts path_of is_rooted
clean path = path_of (is_rooted path) (clean_parts path)

-- filepath.Join of two parts, the second not empty
unfoldable pub join : String → String → String
unfolding clean
join dir name = if str_eq dir "" then clean name else clean (append dir (append "/" name))

drop_last : List String → List String
drop_last [] = []
drop_last (p ∷ []) = []
drop_last (p ∷ q ∷ parts) = p ∷ drop_last (q ∷ parts)

-- filepath.Dir: all but the part after the last slash, cleaned
unfoldable pub dir : String → String
unfolding path_of is_rooted resolve split drop_last
dir path = path_of (is_rooted path) (resolve (is_rooted path) [] (drop_last (split path)))

dir_examples :
    (dir "/etc/passwd" ≡ "/etc") × (dir "/x" ≡ "/") × (dir "x" ≡ ".") × (dir "a/b/" ≡ "a/b")
unfolding dir
dir_examples = (refl, refl, refl, refl)

clean_examples :
    (clean "a/../../b//./c/" ≡ "../b/c")
    × (clean "/../etc" ≡ "/etc")
    × (clean "" ≡ ".")
    × (clean "./..x" ≡ "..x")
unfolding clean
clean_examples = (refl, refl, refl, refl)

join_examples : (join "/run/b" "rootfs" ≡ "/run/b/rootfs") × (join "" "rootfs" ≡ "rootfs")
unfolding join
join_examples = (refl, refl)
