-- ===== src/Base/FilePaths.antt =====
-- filepath.Join below a rooted directory, and filepath.Base.
use mathlib.Core.Bool.{◌||◌}
use mathlib.Core.List.{List, [], ◌∷◌, ◌++◌, reverse}
use reference_guides.Base.Tests.{eqb, if◌then◌else◌}
use reference_guides.Base.Text.{GoString, codes, ◌==◌}
use reference_guides.Base.Words.{is_empty, split, trim_right, join}

abbrev without_last : List GoString → List GoString
without_last [] = []
without_last (w ∷ ws) = ws

-- The parts of a rooted path that are left by filepath.Clean, the last one first.
clean_parts : List GoString → List GoString → List GoString
clean_parts kept [] = kept
clean_parts kept (w ∷ ws) =
    clean_parts
      (if is_empty w || w == codes "."
        then kept
        else if w == codes ".."
        then without_last kept
        else w ∷ kept)
      ws

-- filepath.Join(dir, name) for a `dir` that begins with a slash.
unfoldable pub file_path_join : GoString → GoString → GoString
unfolding clean_parts
file_path_join dir name =
    b'/' ∷ join (b'/' ∷ []) (reverse (clean_parts [] (split b'/' (dir ++ (b'/' ∷ name)))))

abbrev last_piece : GoString → List GoString → GoString
last_piece before [] = before
last_piece before (w ∷ ws) = last_piece w ws

-- filepath.Base
unfoldable pub file_path_base : GoString → GoString
file_path_base path =
    let stripped = trim_right (λ c. eqb c b'/') path in
    if is_empty path
    then codes "."
    else if is_empty stripped
    then codes "/"
    else last_piece [] (split b'/' stripped)
