-- ===== src/Procfs/Shown.antt =====
-- How lstat and readlink agree on the links among the process files.
use rust_ape.Prelude.{ℕ, ◌≡◌, refl, true, List, [], ◌∷◌, Option, none, some, arith}
use rust_ape.Procfs.{is_empty, skip_slashes, after_comp, Node, pc_parse}
use rust_ape.Procfs.Links.{
  Processes, pc_link_name, link_target, link_of_node, below_proc, link_at, readlink, mode_of_sub,
  mode_of_node, mode_at, link_mode,
}

no_target :
    (h : Processes) (n : Node) (bufsiz : ℕ) (o : Option (List ℕ))
    → mode_of_sub o n ≡ 0
    → link_target h n bufsiz o ≡ none
unfolding mode_of_sub link_target
no_target h n bufsiz (some link) e = absurd (omega (arith, e))
no_target h n bufsiz none e = ground (arith, e)

skip_slashes-is_empty : (s : List ℕ) → is_empty s ≡ true → is_empty (skip_slashes s) ≡ true
unfolding skip_slashes
skip_slashes-is_empty [] h = refl
skip_slashes-is_empty (c ∷ cs) h = absurd (ground arith)

no_link :
    (h : Processes) (n : Node) (sub : List ℕ) (bufsiz : ℕ)
    → mode_of_node n sub ≡ 0
    → link_of_node h n sub bufsiz ≡ none
unfolding mode_of_node link_of_node
no_link h n sub bufsiz e = ground (
  arith,
  e,
  skip_slashes-is_empty (after_comp (skip_slashes sub)),
  no_target h n bufsiz (pc_link_name n),
)

no_link_at :
    (h : Processes) (bufsiz : ℕ) (o : Option (List ℕ))
    → mode_at h.own o ≡ 0
    → link_at h bufsiz o ≡ none
unfolding mode_at link_at
no_link_at h bufsiz none e = refl
no_link_at h bufsiz (some sub) e = no_link h (pc_parse h.own sub) sub bufsiz e

-- What lstat does not show as a link, readlink does not read: where a path has no permission bits of a
-- link, there is no target for it in a buffer of any size, whatever the processes are.
pub readlink-link_mode :
    (h : Processes) (vpath : List ℕ) (bufsiz : ℕ)
    → link_mode h vpath ≡ 0
    → readlink h vpath bufsiz ≡ none
unfolding link_mode readlink
readlink-link_mode h vpath bufsiz e = ground (arith, e, no_link_at h bufsiz (below_proc vpath))
