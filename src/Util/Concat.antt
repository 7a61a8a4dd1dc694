-- ===== src/Util/Concat.antt =====
-- iw_util_concat against the concatenation of lists.
use mathlib.Core.List.{flatten, map, append_assoc, append-nil}
use insta_works.Base.{ℕ, ◌≡◌, sym, ap, ◌∙◌, true, Option, none, some, List, [], ◌∷◌, ◌++◌}
use insta_works.Util.{concat_loop, util_concat}

loop-flatten :
    (text : List ℕ) (strs : List (List ℕ)) (rest : List (Option (List ℕ)))
    → concat_loop true (some text) (map some strs ++ none ∷ rest) ≡ some (text ++ flatten strs)
unfolding concat_loop flatten
loop-flatten text [] rest = ap some (sym (append-nil text))
loop-flatten text (s ∷ strs) rest =
    loop-flatten (text ++ s) strs rest ∙ ap some (append_assoc text s (flatten strs))

-- With memory, iw_util_concat of at least one string and then NULL is the strings up to that NULL, one
-- behind the other, whatever arguments follow.
pub util_concat-flatten :
    (s : List ℕ) (strs : List (List ℕ)) (rest : List (Option (List ℕ)))
    → util_concat true (some s ∷ (map some strs ++ none ∷ rest)) ≡ some (s ++ flatten strs)
unfolding util_concat concat_loop
util_concat-flatten s strs rest = loop-flatten s strs rest
