-- ===== src/Projects/Authz.antt =====
-- src/glip/authz.py: what each role may do with projects.
use arquitech_glip_premium_b.Prelude.{
  ◌==◌, ltb, ◌&&◌, ◌||◌, Bool, true, false, Option, List, [], ◌∷◌, if◌then◌else◌, Text, codes,
  same_text, one_of, strip, lower, text_or,
}

unfoldable pub project_capabilities : List Text
project_capabilities =
    codes "project.create"
    ∷ codes "project.update"
    ∷ codes "project.archive"
    ∷ codes "project.restore"
    ∷ []

-- `ROLE_CAPABILITIES.get(role, frozenset())`
unfoldable pub role_capabilities : Text → List Text
role_capabilities role =
    if same_text role (codes "owner")
    then project_capabilities
    else if same_text role (codes "admin")
    then project_capabilities
    else if same_text role (codes "architect")
    then codes "project.create" ∷ codes "project.update" ∷ []
    else if same_text role (codes "member")
    then codes "project.create" ∷ codes "project.update" ∷ []
    else []

-- `str(role or "").strip().lower()`
unfoldable pub clean_role : Text → Text
clean_role role = lower (strip role)

unfoldable pub has_capability : Text → Text → Bool
has_capability role capability = one_of capability (role_capabilities (clean_role role))

-- The order of texts by their codes, as `sorted` compares them.
unfoldable pub before : Text → Text → Bool
before [] ys = true
before (x ∷ xs) [] = false
before (x ∷ xs) (y ∷ ys) = ltb x y || (x == y && before xs ys)

unfoldable pub insert : Text → List Text → List Text
insert t [] = t ∷ []
insert t (u ∷ us) = let rest = insert t us in if before t u then t ∷ u ∷ us else u ∷ rest

unfoldable pub sorted : List Text → List Text
sorted [] = []
sorted (t ∷ ts) = insert t (sorted ts)

unfoldable pub capabilities_for : Option Text → List Text
capabilities_for role = sorted (role_capabilities (clean_role (text_or role [])))
