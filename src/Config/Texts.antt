-- ===== src/Config/Texts.antt =====
-- The operations on texts that src/glip/config.py uses: `startswith`, `endswith`, `in`, `split`.
use arquitech_glip_premium_b.Prelude.{
  ℕ, Bool, true, false, ◌||◌, Option, none, some, List, [], ◌∷◌, ◌==◌, if◌then◌else◌, Text,
  is_empty, strip, same_text,
}

-- What follows a prefix.
unfoldable pub after : Text → Text → Option Text
after [] t = some t
after (x ∷ xs) [] = none
after (x ∷ xs) (y ∷ ys) = let rest = after xs ys in if x == y then rest else none

abbrev pub is_found : Option Text → Bool
is_found none = false
is_found (some _) = true

-- `t.startswith(prefix)`
abbrev pub starts_with : Text → Text → Bool
starts_with prefix t = is_found (after prefix t)

-- `needle in t`
unfoldable pub contains : Text → Text → Bool
contains needle [] = is_empty needle
contains needle (y ∷ ys) = starts_with needle (y ∷ ys) || contains needle ys

-- `t.endswith(suffix)`
unfoldable pub ends_with : Text → Text → Bool
ends_with suffix [] = is_empty suffix
ends_with suffix (y ∷ ys) = same_text suffix (y ∷ ys) || ends_with suffix ys

abbrev prepend : ℕ → List Text → List Text
prepend c [] = (c ∷ []) ∷ []
prepend c (part ∷ parts) = (c ∷ part) ∷ parts

-- `t.split(",")`
unfoldable pub split_commas : Text → List Text
split_commas [] = [] ∷ []
split_commas (c ∷ t) =
    let parts = split_commas t in if c == b',' then [] ∷ parts else prepend c parts

unfoldable pub stripped_parts : List Text → List Text
stripped_parts [] = []
stripped_parts (x ∷ xs) =
    let rest = stripped_parts xs in if is_empty (strip x) then rest else strip x ∷ rest
