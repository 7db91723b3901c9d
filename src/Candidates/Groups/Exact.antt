-- ===== src/Candidates/Groups/Exact.antt =====
-- The members of a group that is not flagged for manual narrowing, by the references alone.
use work_trace.Prelude.{◌≡◌, ◌↔◌, String, true, false, some, arith, inl, inr, List, sym, ◌∙◌}
use mathlib.Core.Path.{subst}
use work_trace.Prelude.Texts.{elem}
use work_trace.Candidates.Objects.{Observed, Reference}
use work_trace.Candidates.Search.{Search, search_from}
use work_trace.Candidates.Search.Path.{IsNear, Found, search_from-Explained}
use work_trace.Candidates.Search.Complete.{Complete, search_from-Complete}
use work_trace.Candidates.Groups.{Texts, group_of}
use work_trace.Candidates.Groups.Retained.{group_of-whole}
use work_trace.Candidates.Groups.Partition.{Near-elem}

module _ (objects : List Observed) (references : List Reference) (seed : String) {found : Search}
    (searched : search_from objects references seed ≡ some found) where
  found-IsNear : (x : String) → elem x found.members ≡ true → IsNear objects references seed x
  found-IsNear x h =
      let explained =
        subst (Found objects references seed) searched
          (search_from-Explained objects references seed) in
      Near-elem objects references seed x found.members explained.0 h

  IsNear-found :
      (x : String)
      → found.overflow ≡ false
      → IsNear objects references seed x
      → elem x found.members ≡ true
  IsNear-found x o (n, small, linked) =
      elim (subst (Complete objects references seed) searched
        (search_from-Complete objects references seed)) [
          | inl overflow ↦ let absurd : ⊥ = ground (arith, o, overflow) in elim absurd [ ]
          | inr complete ↦ complete n x small linked
        ]

-- Where the search from a seed does not overflow, its group has exactly the objects as members that
-- at most three followed structural references link to the seed.
pub group_of-IsNear :
    (texts : Texts) (app : String) (objects : List Observed) (references : List Reference)
    (seed : Observed) (x : String) {found : Search}
    → search_from objects references seed.source_object_id ≡ some found
    → found.overflow ≡ false
    → (elem x (group_of texts app objects references seed found).members ≡ true)
      ↔ IsNear objects references seed.source_object_id x
group_of-IsNear texts app objects references seed x {found = found} h o =
    let (_, members, _) = group_of-whole texts app objects references seed x h o in
    (
      λ e. found-IsNear objects references seed.source_object_id h x (sym members ∙ e),
      λ near. members ∙ IsNear-found objects references seed.source_object_id h x o near,
    )
