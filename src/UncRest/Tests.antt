-- ===== src/UncRest/Tests.antt =====
-- Runs of `norm_rest`.
use rust_ape.Prelude.{
  ◌≤◌, length, ℕ, ◌≡◌, refl, true, false, not, ◌&&◌, List, [], ◌∷◌, if◌then◌else◌, All,
}
use rust_ape.UncRest.{
  skip_seps, name_of, after_name, pop, write_name, resolve_name, norm_loop, norm_rest, is_nil,
  ends_in_sep,
}
use rust_ape.UncRest.InPlace.{norm_rest-length}
use rust_ape.UncRest.Laws.{IsPlain, render, norm_rest_refines, norm_rest-IsPlain}

-- "/a/../../b/" and "/a/./c"
abbrev climbing : List ℕ
climbing = 47 ∷ 97 ∷ 47 ∷ 46 ∷ 46 ∷ 47 ∷ 46 ∷ 46 ∷ 47 ∷ 98 ∷ 47 ∷ []

abbrev staying : List ℕ
staying = 47 ∷ 97 ∷ 47 ∷ 46 ∷ 47 ∷ 99 ∷ []

climbed : norm_rest climbing ≡ (92 ∷ 98 ∷ 92 ∷ [], true)
unfolding norm_rest norm_loop skip_seps name_of after_name resolve_name pop write_name
climbed = refl

stayed : norm_rest staying ≡ (99 ∷ 92 ∷ 97 ∷ 92 ∷ [], false)
unfolding norm_rest norm_loop skip_seps name_of after_name resolve_name pop write_name
stayed = refl

norm_rest_refines_example : norm_rest climbing ≡ (92 ∷ 98 ∷ 92 ∷ [], true)
unfolding write_name
norm_rest_refines_example = norm_rest_refines climbing refl

names_only_run :
    (ns : List (List ℕ)) × All IsPlain ns
    × ((norm_rest staying).0
        ≡ (if ends_in_sep staying && not (is_nil (render ns)) then 92 ∷ render ns else render ns))
names_only_run = norm_rest-IsPlain staying refl

in_place_run : length (norm_rest climbing).0 ≤ 11
in_place_run = norm_rest-length climbing refl
