-- ===== src/Wild/Examples.antt =====
-- The wildcard theorems at concrete masks, and runs of the code.
use denora.Prelude.{◌≡◌, ◌↔◌, refl, true, false, codes}
use denora.Wild.{do_match_wild, match_wild, match_wild_nocase}
use denora.Wild.Relation.{Matches}
use denora.Wild.Soundness.{do_match_wild-Matches}
use denora.Wild.Completeness.{do_match_wild_iff}

host_mask : match_wild_nocase (codes "*.Example.???") (codes "irc.example.org") ≡ true
unfolding match_wild_nocase
host_mask = refl

host_mask_case : match_wild (codes "*.Example.???") (codes "irc.example.org") ≡ false
unfolding match_wild
host_mask_case = refl

do_match_wild-Matches_example : Matches false (codes "*.Net") (codes "a.net")
unfolding do_match_wild
do_match_wild-Matches_example = do_match_wild-Matches (codes "*.Net") (codes "a.net") false refl

do_match_wild_iff_example :
    (do_match_wild (codes "a*b") (codes "axxb") true ≡ true)
    ↔ Matches true (codes "a*b") (codes "axxb")
do_match_wild_iff_example =
    do_match_wild_iff (codes "a*b") (codes "axxb") true refl refl (refl, (refl, (refl, tt)))
