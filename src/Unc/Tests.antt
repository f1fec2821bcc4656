-- ===== src/Unc/Tests.antt =====
-- Runs of the functions of Unc.
use rust_ape.Prelude.{ℕ, ◌≡◌, refl, true, false, List, [], ◌∷◌, arith, Any}
use rust_ape.Unc.{
  name_len, share_end, unc_root_len, root_equals, root_known, store_root, unc_note, server_matches,
  server_known, is_collapsed,
}
use rust_ape.Unc.Shares.{IsShare}
use rust_ape.Unc.Registry.{
  IsRegistry, unc_note-IsRegistry, is_collapsed-unc_note, is_collapsed_registered,
}

-- "srv/pub/x", and "SRV/pub/y"
abbrev share : List ℕ
share = 115 ∷ 114 ∷ 118 ∷ 47 ∷ 112 ∷ 117 ∷ 98 ∷ 47 ∷ 120 ∷ []

abbrev capitals : List ℕ
capitals = 83 ∷ 82 ∷ 86 ∷ 47 ∷ 112 ∷ 117 ∷ 98 ∷ 47 ∷ 121 ∷ []

-- "usr/bin"
abbrev usr_bin : List ℕ
usr_bin = 117 ∷ 115 ∷ 114 ∷ 47 ∷ 98 ∷ 105 ∷ 110 ∷ []

abbrev root : List ℕ
root = 115 ∷ 114 ∷ 118 ∷ 47 ∷ 112 ∷ 117 ∷ 98 ∷ []

noted : unc_note (λ r. r) (47 ∷ 47 ∷ share) [] ≡ root ∷ []
unfolding unc_note unc_root_len name_len share_end store_root root_known
noted = refl

case_ignored : is_collapsed (root ∷ []) (47 ∷ capitals) ≡ true
unfolding is_collapsed unc_root_len name_len share_end root_known root_equals
case_ignored = refl

server_alone : is_collapsed (root ∷ []) (47 ∷ 115 ∷ 114 ∷ 118 ∷ []) ≡ true
unfolding is_collapsed unc_root_len name_len share_end server_known server_matches
server_alone = refl

ordinary : is_collapsed (root ∷ []) (47 ∷ usr_bin) ≡ false
unfolding is_collapsed unc_root_len name_len share_end root_known root_equals
ordinary = refl

empty-IsRegistry : IsRegistry []
empty-IsRegistry = record { few = omega arith; short = tt }

unc_note-IsRegistry_example : IsRegistry (unc_note (λ r. r) (47 ∷ 47 ∷ share) [])
unc_note-IsRegistry_example =
    unc_note-IsRegistry (λ r. r) (47 ∷ 47 ∷ share) [] empty-IsRegistry empty-IsRegistry

-- "srv" and "pub", and the same in capitals
abbrev srv : List ℕ
srv = 115 ∷ 114 ∷ 118 ∷ []

abbrev shared : List ℕ
shared = 112 ∷ 117 ∷ 98 ∷ []

abbrev srv_capitals : List ℕ
srv_capitals = 83 ∷ 82 ∷ 86 ∷ []

srv-IsShare : IsShare srv shared
srv-IsShare = record {
  server_name = refl;
  share_name = refl;
  server_some = refl;
  share_some = refl;
  no_device = refl;
  no_drive = refl;
  no_dots = refl;
  fits = omega arith;
}

is_collapsed-unc_note_example :
    is_collapsed (unc_note (λ r. r) (47 ∷ 47 ∷ share) []) (47 ∷ capitals) ≡ true
is_collapsed-unc_note_example =
    is_collapsed-unc_note (λ r. r) srv srv_capitals shared shared (47 ∷ 120 ∷ []) (47 ∷ 121 ∷ []) []
      srv-IsShare refl refl refl refl (omega arith)

root_found_run : Any (λ r. root_equals r capitals (unc_root_len capitals) ≡ true) (root ∷ [])
unfolding unc_root_len name_len share_end
root_found_run = is_collapsed_registered capitals (root ∷ []) refl case_ignored
